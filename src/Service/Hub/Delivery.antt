-- ===== src/Service/Hub/Delivery.antt =====
-- What the clients of the hub receive (ingestion-service/internal/websocket/hub.go).
use multi_tenant_siem.Base.{
  ==_iff, append-nil, append_assoc, ℕ, ◌+◌, ◌≡◌, refl, sym, ap, ◌∙◌, ◌≢◌, inl, inr, Bool, true,
  false, not, List, [], ◌∷◌, ◌++◌, arith, ◌==◌, if◌then◌else◌, Bool-cases, any, keep, append_assoc,
  is_empty,
}
use mathlib.Core.Path.{subst}
use multi_tenant_siem.Detection.Model.{Alert}
use multi_tenant_siem.Service.Hub.{Hub, broadcast, connect, disconnect, flush_batch, deliveries}

-- What happens to the hub.
pub data Op : Type 0 where
  say : Alert → Op
  join leave : ℕ → Op
  tick : (ℕ → Bool) → Op

abbrev pub apply : Op → Hub → Hub
apply (say a) h = broadcast a h
apply (join c) h = connect c h
apply (leave c) h = disconnect c h
apply (tick ok) h = flush_batch ok h

pub run : List Op → Hub → Hub
run [] h = h
run (op ∷ ops) h = run ops (apply op h)

-- The alerts that were broadcast.
abbrev pub said : List Op → List Alert
said [] = []
said (say a ∷ ops) = a ∷ said ops
said (_ ∷ ops) = said ops

-- What a connection was sent.
abbrev pub received : ℕ → List (ℕ × List Alert) → List Alert
received c [] = []
received c ((d, batch) ∷ rest) = if d == c then batch ++ received c rest else received c rest

-- Nothing but flushes that reach the connection, and broadcasts, and what other connections do.
abbrev pub Stays : ℕ → List Op → Type 0
Stays c [] = Unit
Stays c (say a ∷ ops) = Stays c ops
Stays c (join d ∷ ops) = Stays c ops
Stays c (leave d ∷ ops) = (d ≢ c) × Stays c ops
Stays c (tick ok ∷ ops) = (ok c ≡ true) × Stays c ops

-- The connection stands exactly once in the map.
abbrev pub count : ℕ → List ℕ → ℕ
count c [] = 0
count c (d ∷ ds) = (if d == c then 1 else 0) + count c ds

pub received-append :
    (c : ℕ) (xs ys : List (ℕ × List Alert)) → received c (xs ++ ys) ≡ received c xs ++ received c ys
received-append c [] ys = refl
received-append c ((d, b) ∷ xs) ys = elim (Bool-cases (d == c)) [
  | inl same ↦ rw same (rw (received-append c xs ys) (sym (append_assoc b _ _)))
  | inr other ↦ rw other (received-append c xs ys)
]

received-deliveries_absent :
    (c : ℕ) (ok : ℕ → Bool) (batch : List Alert) (cs : List ℕ)
    → count c cs ≡ 0
    → received c (deliveries ok batch cs) ≡ []
unfolding deliveries
received-deliveries_absent c ok batch [] k = refl
received-deliveries_absent c ok batch (d ∷ cs) k =
    ground (arith, received-deliveries_absent c ok batch cs)

-- A flush that reaches the connection sends it the whole batch once.
received-deliveries :
    (c : ℕ) (ok : ℕ → Bool) (batch : List Alert) (cs : List ℕ)
    → ok c ≡ true
    → count c cs ≡ 1
    → received c (deliveries ok batch cs) ≡ batch
unfolding deliveries
received-deliveries c ok batch [] h k = absurd (omega arith)
received-deliveries c ok batch (d ∷ cs) h k = elim (Bool-cases (d == c)) [
  | inl same ↦
      let e = (==_iff d c).0 same in
      rw (ap ok e ∙ h, same)
        (rw (received-deliveries_absent c ok batch cs (ground arith)) (append-nil batch))
  | inr other ↦ elim (Bool-cases (ok d)) [
    | inl reached ↦ rw (reached, other) (received-deliveries c ok batch cs h (ground arith))
    | inr lost ↦ rw lost (received-deliveries c ok batch cs h (ground arith))
  ]
]

pub count-keep :
    (c : ℕ) (q : ℕ → Bool) (cs : List ℕ) → q c ≡ true → count c (keep q cs) ≡ count c cs
count-keep c q [] h = refl
count-keep c q (d ∷ cs) h = elim (Bool-cases (d == c)) [
  | inl same ↦ let e = (==_iff d c).0 same in rw (ap q e ∙ h) (ground (arith, count-keep c q cs))
  | inr other ↦ elim (Bool-cases (q d)) [
    | inl kept ↦ rw kept (ground (arith, count-keep c q cs))
    | inr dropped ↦ rw dropped (ground (arith, count-keep c q cs))
  ]
]

any_of_count : (c : ℕ) (cs : List ℕ) → count c cs ≡ 1 → any (λ d. d == c) cs ≡ true
any_of_count c [] k = absurd (omega arith)
any_of_count c (d ∷ cs) k = ground (arith, any_of_count c cs)

pub count-append : (c : ℕ) (cs ds : List ℕ) → count c (cs ++ ds) ≡ count c cs + count c ds
count-append c [] ds = omega arith
count-append c (d ∷ cs) ds = omega (arith, count-append c cs ds)

other_of_absent :
    (c d : ℕ) (cs : List ℕ) → any (λ e. e == d) cs ≡ false → count c cs ≡ 1 → (d == c) ≡ false
other_of_absent c d cs h k = elim (Bool-cases (d == c)) [
  | inl same ↦
      let e = (==_iff d c).0 same in
      absurd (cc (any_of_count c cs k, subst (λ x. any (λ e. e == x) cs ≡ false) e h))
  | inr other ↦ other
]

pub count-connect : (c d : ℕ) (h : Hub) → count c h.clients ≡ 1 → count c (connect d h).clients ≡ 1
unfolding connect
count-connect c d h k = elim (Bool-cases (any (λ e. e == d) h.clients)) [
  | inl there ↦ rw (there, connect) k
  | inr absent ↦
      rw (absent, connect)
        (rw count-append (rw (other_of_absent c d h.clients absent k) (omega arith)))
]

-- One operation: what the connection has been sent, and what waits for it, grow by what is said.
module _ (c : ℕ) where
  abbrev pub owed : Hub → List Alert
  owed h = received c h.sent ++ h.batch

  pub owed-tick :
      (ok : ℕ → Bool) (h : Hub)
      → ok c ≡ true
      → count c h.clients ≡ 1
      → (owed (flush_batch ok h) ≡ owed h) × (count c (flush_batch ok h).clients ≡ 1)
  unfolding flush_batch
  owed-tick ok h reach k = elim (Bool-cases (is_empty h.batch)) [
    | inl nothing ↦ simp (nothing, flush_batch) (refl, k)
    | inr some_there ↦
        simp (some_there, flush_batch)
          (
            rw (append-nil, received-append, received-deliveries c ok h.batch h.clients reach k),
            count-keep c ok h.clients reach ∙ k,
          )
  ]

  -- A connection that stays receives every alert that is broadcast meanwhile, of whatever tenant,
  -- once and in order: what it was sent and what still waits are what it had and what was said.
  pub owed-run :
      (ops : List Op) (h : Hub)
      → count c h.clients ≡ 1
      → Stays c ops
      → owed (run ops h) ≡ owed h ++ said ops
  unfolding run connect disconnect broadcast
  owed-run [] h k s = sym (append-nil (owed h))
  owed-run (say a ∷ ops) h k s = owed-run ops (broadcast a h) k s ∙ simp append_assoc
  owed-run (join d ∷ ops) h k s = owed-run ops (connect d h) (count-connect c d h k) s
  owed-run (leave d ∷ ops) h k (other, s) =
      owed-run ops (disconnect d h) (count-keep c (λ e. not (e == d)) h.clients (ground arith) ∙ k)
        s
  owed-run (tick ok ∷ ops) h k (reach, s) =
      let (same, k') = owed-tick ok h reach k in
      owed-run ops (flush_batch ok h) k' s ∙ ap (λ (xs : List Alert). xs ++ said ops) same
