-- ===== src/Detection/Keys.antt =====
-- The keys under which the detectors of ingestion-service/internal/detection count: tenant, ":" and
-- address. Different tenants share no entry as long as their ids have no ":".
use Prim.Native.Char.{code}
use Prim.Native.String
use text.Mathlib.TextLemmas.{
  nil-append, cons-append, append-nil, append_assoc as text_append_assoc, append_cancel_left,
  head-eq_of_cons-eq, tail-eq_of_cons-eq,
}
use multi_tenant_siem.Base.{String, ◌≡◌, refl, sym, ap, ◌∙◌, ◌≢◌, [], ◌∷◌, concat}
use multi_tenant_siem.Detection.Model.{Event}
use multi_tenant_siem.Detection.BruteForce.{key_of}

-- No character of the text is a colon.
abbrev pub NoColon : String → Type 0
NoColon String.[] = Unit
NoColon (String.◌∷◌ c s) = (code c ≢ b':') × NoColon s

colon_cons : (t : String) → String.◌++◌ ":" t ≡ String.◌∷◌ (String.char_at ":" 0) t
colon_cons t = rw cons-append (rw nil-append)

-- The first colon ends the tenant.
first_colon :
    (s s' t t' : String)
    → NoColon s
    → NoColon s'
    → String.◌++◌ s (String.◌++◌ ":" t) ≡ String.◌++◌ s' (String.◌++◌ ":" t')
    → (s ≡ s') × (t ≡ t')
first_colon String.[] String.[] t t' h h' e =
    (refl, append_cancel_left ":" t t' (sym (nil-append _) ∙ e ∙ nil-append _))
first_colon String.[] (String.◌∷◌ c s') t t' h h' e =
    let p = sym (colon_cons t) ∙ sym (nil-append _) ∙ e ∙ cons-append c s' _ in
    absurd (h'.0 (ap code (sym (head-eq_of_cons-eq p))))
first_colon (String.◌∷◌ c s) String.[] t t' h h' e =
    let p = sym (colon_cons t') ∙ sym (nil-append _) ∙ sym e ∙ cons-append c s _ in
    absurd (h.0 (ap code (sym (head-eq_of_cons-eq p))))
first_colon (String.◌∷◌ c s) (String.◌∷◌ c' s') t t' h h' e =
    let p = sym (cons-append c s _) ∙ e ∙ cons-append c' s' _ in
    let (same, rest) = first_colon s s' t t' h.1 h'.1 (tail-eq_of_cons-eq p) in
    (cc (same, head-eq_of_cons-eq p), rest)

-- Two events whose tenants have no colon in their ids share a key only if they have the same tenant
-- and the same address.
pub key_of-injective :
    (a b : Event)
    → NoColon a.tenant_id
    → NoColon b.tenant_id
    → key_of a ≡ key_of b
    → (a.tenant_id ≡ b.tenant_id) × (a.ip_address ≡ b.ip_address)
key_of-injective a b ha hb e =
    let (tenant, rest) = first_colon a.tenant_id b.tenant_id _ _ ha hb e in
    (tenant, sym (append-nil a.ip_address) ∙ rest ∙ append-nil b.ip_address)

-- With a colon in a tenant's id they may share one: any tenant `t`, with an address that begins
-- with `u` and a colon, has the key of the tenant `t:u` with the rest of the address.
pub key_of_collision :
    (a b : Event) (t u ip : String)
    → a.tenant_id ≡ t
    → a.ip_address ≡ concat (u ∷ ":" ∷ ip ∷ [])
    → b.tenant_id ≡ concat (t ∷ ":" ∷ u ∷ [])
    → b.ip_address ≡ ip
    → key_of a ≡ key_of b
key_of_collision a b t u ip ea ea' eb eb' =
    rw (ea, ea', eb, eb') (simp (text_append_assoc, append-nil))
