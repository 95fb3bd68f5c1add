-- ===== src/Service/Hub/Unordered.antt =====
-- The hub does not depend on the order in which Go ranges over the map of its clients
-- (`flushBatch` of ingestion-service/internal/websocket/hub.go).
use multi_tenant_siem.Base.{
  ℕ, zero, suc, ◌+◌, ◌≡◌, refl, sym, ap, ◌∙◌, inl, inr, Bool, not, ◌&&◌, List, [], ◌∷◌, ◌++◌, arith,
  ltb, ◌==◌, if◌then◌else◌, Bool-cases, any, keep, is_empty, ==_iff,
}
use mathlib.Core.Quot
use mathlib.Core.Quot.{Quot, Quot-set}
use text.Mathlib.TextEquality.{IsScalar-prop}
use multi_tenant_siem.Detection.Model.{Alert}
use multi_tenant_siem.Service.Hub.{Hub, broadcast, connect, disconnect, flush_batch, deliveries}
use multi_tenant_siem.Service.Hub.Delivery.{Op, say, join, leave, tick, apply, count, count-append}

-- The messages that a connection was sent, one for each `WriteJSON`.
abbrev pub messages : ℕ → List (ℕ × List Alert) → List (List Alert)
messages c [] = []
messages c ((d, batch) ∷ rest) = if d == c then batch ∷ messages c rest else messages c rest

messages-append :
    (c : ℕ) (xs ys : List (ℕ × List Alert)) → messages c (xs ++ ys) ≡ messages c xs ++ messages c ys
messages-append c [] ys = refl
messages-append c ((d, b) ∷ xs) ys = elim (Bool-cases (d == c)) [
  | inl same ↦ rw same (ap (◌∷◌ b) (messages-append c xs ys))
  | inr other ↦ rw other (messages-append c xs ys)
]

-- Two hubs with the same clients in any order, each of whose connections was sent the same messages
-- in the same order.
pub record Same (h k : Hub) : Type 0 where
  pub clients : (c : ℕ) → count c h.clients ≡ count c k.clients
  pub sent : (c : ℕ) → messages c h.sent ≡ messages c k.sent
  pub batch : h.batch ≡ k.batch
  pub batches_sent : h.batches_sent ≡ k.batches_sent

-- A hub without the order of its clients, and of the writes to different connections; the messages to
-- one connection, their bounds and their order are kept.
abbrev pub View : Type 0
View = Quot Same

abbrev pub view : Hub → View
view = Quot.mk

count-keep_if :
    (c : ℕ) (q : ℕ → Bool) (cs : List ℕ) → count c (keep q cs) ≡ (if q c then count c cs else 0)
count-keep_if c q [] = ground arith
count-keep_if c q (d ∷ cs) = elim (Bool-cases (d == c)) [
  | inl same ↦
      let e = (==_iff d c).0 same in
      elim (Bool-cases (q c)) [
        | inl kept ↦ rw (ap q e ∙ kept) (ground (arith, count-keep_if c q cs))
        | inr dropped ↦ rw (ap q e ∙ dropped) (ground (arith, count-keep_if c q cs))
      ]
  | inr other ↦ elim (Bool-cases (q d)) [
    | inl kept ↦ rw kept (ground (arith, count-keep_if c q cs))
    | inr dropped ↦ rw dropped (ground (arith, count-keep_if c q cs))
  ]
]

-- A client that stands in the map gets the batch in one message, if its write succeeds.
copies : ℕ → List Alert → List (List Alert)
copies zero batch = []
copies (suc n) batch = batch ∷ copies n batch

copies_more : (n : ℕ) (batch : List Alert) → copies (1 + n) batch ≡ batch ∷ copies n batch
unfolding copies
copies_more n batch = let one : 1 + n ≡ suc n = omega arith in rw one refl

copies_same : (n : ℕ) (batch : List Alert) → copies (0 + n) batch ≡ copies n batch
copies_same n batch = let none_more : 0 + n ≡ n = omega arith in rw none_more refl

messages-deliveries_if :
    (c : ℕ) (ok : ℕ → Bool) (batch : List Alert) (cs : List ℕ)
    → messages c (deliveries ok batch cs) ≡ (if ok c then copies (count c cs) batch else [])
unfolding deliveries
messages-deliveries_if c ok batch [] = elim (Bool-cases (ok c)) [
  | inl sent ↦ rw sent (unfold copies in refl)
  | inr lost ↦ rw lost refl
]
messages-deliveries_if c ok batch (d ∷ cs) = elim (Bool-cases (d == c)) [
  | inl same ↦
      let e = (==_iff d c).0 same in
      elim (Bool-cases (ok c)) [
        | inl sent ↦
            rw (ap ok e ∙ sent, same, sent)
              (rw (messages-deliveries_if c ok batch cs, sent)
                (sym (copies_more (count c cs) batch)))
        | inr lost ↦
            rw (ap ok e ∙ lost, lost) (rw (messages-deliveries_if c ok batch cs, lost) refl)
      ]
  | inr other ↦ elim (Bool-cases (ok d)) [
    | inl sent ↦ rw (sent, other) (rw (messages-deliveries_if c ok batch cs, copies_same) refl)
    | inr lost ↦ rw (lost, other) (rw (messages-deliveries_if c ok batch cs, copies_same) refl)
  ]
]

any_count : (c : ℕ) (cs : List ℕ) → any (λ d. d == c) cs ≡ ltb 0 (count c cs)
any_count c [] = ground arith
any_count c (d ∷ cs) = ground (arith, any_count c cs)

-- A client that joins stands in the map once more only if it did not stand there.
count-connect_if :
    (c d : ℕ) (h : Hub)
    → count c (connect d h).clients
      ≡ (if d == c && not (ltb 0 (count c h.clients)) then 1 else count c h.clients)
unfolding connect
count-connect_if c d h = elim (Bool-cases (any (λ e. e == d) h.clients)) [
  | inl there ↦ rw (there, connect) (ground (arith, any_count d h.clients, ==_iff d c))
  | inr absent ↦
      rw (absent, connect)
        (ground (arith, any_count d h.clients, count-append c h.clients (d ∷ [])))
]

Same-connect : (d : ℕ) (h k : Hub) → Same h k → Same (connect d h) (connect d k)
unfolding connect
Same-connect d h k s = record {
  clients = λ c.
      count-connect_if c d h
      ∙ ap (λ n. if d == c && not (ltb 0 n) then 1 else n) (s.clients c)
      ∙ sym (count-connect_if c d k);
  sent = s.sent;
  batch = s.batch;
  batches_sent = s.batches_sent;
}

Same-flush_batch :
    (ok : ℕ → Bool) (h k : Hub) → Same h k → Same (flush_batch ok h) (flush_batch ok k)
unfolding flush_batch
Same-flush_batch ok h k s = elim (Bool-cases (is_empty h.batch)) [
  | inl nothing ↦
      let nothing' = ap is_empty (sym s.batch) ∙ nothing in rw (nothing, nothing', flush_batch) s
  | inr some_there ↦
      let some_there' = ap is_empty (sym s.batch) ∙ some_there in
      rw (some_there, some_there', flush_batch)
        (record {
          clients = λ c.
              count-keep_if c ok h.clients
              ∙ ap (λ n. if ok c then n else 0) (s.clients c)
              ∙ sym (count-keep_if c ok k.clients);
          sent = λ c.
              messages-append c h.sent _
              ∙ rw
                  (
                    messages-deliveries_if c ok h.batch h.clients,
                    messages-deliveries_if c ok k.batch k.clients,
                    s.clients c,
                    s.batch,
                    s.sent c,
                  )
                  refl
              ∙ sym (messages-append c k.sent _);
          batch = refl;
          batches_sent = ap (λ n. n + 1) s.batches_sent;
        })
]

Same-apply : (op : Op) (h k : Hub) → Same h k → Same (apply op h) (apply op k)
unfolding broadcast disconnect
Same-apply (say a) h k s = record {
  clients = s.clients;
  sent = s.sent;
  batch = ap (λ (xs : List Alert). xs ++ a ∷ []) s.batch;
  batches_sent = s.batches_sent;
}
Same-apply (join d) h k s = Same-connect d h k s
Same-apply (leave d) h k s = record {
  clients = λ c.
      count-keep_if c (λ e. not (e == d)) h.clients
      ∙ ap (λ n. if not (c == d) then n else 0) (s.clients c)
      ∙ sym (count-keep_if c (λ e. not (e == d)) k.clients);
  sent = s.sent;
  batch = s.batch;
  batches_sent = s.batches_sent;
}
Same-apply (tick ok) h k s = Same-flush_batch ok h k s

-- An operation on the hub without its order.
apply_view : Op → View → View
apply_view op =
    Quot.lift Quot-set (λ h. view (apply op h)) λ h k s. Quot.sound (Same-apply op h k s)

pub run_view : List Op → View → View
run_view [] v = v
run_view (op ∷ ops) v = run_view ops (apply_view op v)

Alert-set : IsSet Alert
Alert-set = hlevel IsScalar-prop

-- The messages that a connection was sent, and what waits for it.
pub messages_view : ℕ → View → List (List Alert)
messages_view c = Quot.lift (hlevel Alert-set) (λ h. messages c h.sent) λ h k s. s.sent c

pub waiting_view : View → List Alert
waiting_view = Quot.lift (hlevel Alert-set) (λ h. h.batch) λ h k s. s.batch

-- A run of the hub in which the map of the clients may be in another order at each operation.
pub data Runs : Hub → List Op → Hub → Type 0 where
  ends : {h k : Hub} → Same h k → Runs h [] k
  goes :
      {h k l : Hub} (op : Op) (ops : List Op)
      → Same h k
      → Runs (apply op k) ops l
      → Runs h (op ∷ ops) l

-- In whatever orders Go ranges over the map of the clients, a run of the hub is one and the same run
-- of the hub without these orders: so the messages that each connection is sent, each with its batch of
-- alerts and in their order, and what waits at the end do not depend on them.
pub run_view_lem :
    {h l : Hub} {ops : List Op}
    → Runs h ops l
    → (view l ≡ run_view ops (view h))
      × ((c : ℕ) → messages c l.sent ≡ messages_view c (run_view ops (view h)))
      × (l.batch ≡ waiting_view (run_view ops (view h)))
unfolding messages_view waiting_view run_view apply_view
run_view_lem r = let e = view_lem r in (e, λ c. ap (messages_view c) e, ap waiting_view e)
  where
    view_lem : {h l : Hub} {ops : List Op} → Runs h ops l → view l ≡ run_view ops (view h)
    view_lem (ends s) = sym (Quot.sound s)
    view_lem (goes op ops s r) =
        view_lem r ∙ ap (run_view ops) (ap (apply_view op) (sym (Quot.sound s)))
