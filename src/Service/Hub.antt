-- ===== src/Service/Hub.antt =====
-- ingestion-service/internal/websocket/hub.go. A connection is a number. What the sockets answer to
-- a write is given by `ok`.
pub mod Delivery
pub mod Unordered
use multi_tenant_siem.Base.{
  ℕ, zero, suc, ◌+◌, ◌-◌, ◌≤◌, ◌<◌, String, ◌≡◌, refl, sym, ap, ◌∙◌, ◌≢◌, ◌↔◌, ◌⊎◌, inl, inr, Bool,
  true, false, not, ◌&&◌, ◌||◌, Option, none, some, List, [], ◌∷◌, ◌++◌, arith, ltb, leb, ◌==◌,
  str_eq, eq_iff, eq_refl, if◌then◌else◌, Bool-cases, Option-cases, length, any, keep, All, Memᴰ,
  is_empty,
}
use multi_tenant_siem.Detection.Model.{Alert}

-- `sent` is a trace of the writes: the connection and the batch, for each write that succeeded.
pub record Hub : Type 0 where
  pub clients : List ℕ
  pub batch : List Alert
  pub sent : List (ℕ × List Alert)
  pub batches_sent : ℕ

abbrev pub new_hub : Hub
new_hub = record { clients = []; batch = []; sent = []; batches_sent = 0 }

-- `Broadcast`
unfoldable pub broadcast : Alert → Hub → Hub
broadcast alert h = record h { batch = h.batch ++ alert ∷ [] }

-- `h.clients[conn] = true`, in `HandleConnections`
unfoldable pub connect : ℕ → Hub → Hub
connect conn h = record h {
  clients = if any (λ c. c == conn) h.clients then h.clients else h.clients ++ conn ∷ [];
}

-- `delete(h.clients, conn)`, when a read fails
unfoldable pub disconnect : ℕ → Hub → Hub
disconnect conn h = record h { clients = keep (λ c. not (c == conn)) h.clients }

-- The writes of one flush.
unfoldable pub deliveries : (ℕ → Bool) → List Alert → List ℕ → List (ℕ × List Alert)
deliveries ok batch [] = []
deliveries ok batch (c ∷ cs) =
    let rest = deliveries ok batch cs in if ok c then (c, batch) ∷ rest else rest

-- `flushBatch`: a connection whose write fails is closed and removed.
unfoldable pub flush_batch : (ℕ → Bool) → Hub → Hub
unfolding deliveries
flush_batch ok h = if is_empty h.batch then h else record {
  clients = keep ok h.clients;
  batch = [];
  sent = h.sent ++ deliveries ok h.batch h.clients;
  batches_sent = h.batches_sent + 1;
}
