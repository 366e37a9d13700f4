-- ===== src/Params/Owners.antt =====
-- The owners that a domain field stands for.
use ddns_updater_beget.Common.{
  ℕ, ◌≡◌, ◌≢◌, refl, sym, ap, ◌∙◌, ◌⊎◌, inl, inr, List, [], ◌∷◌, ◌++◌, Bytes, codes, Error,
  beq_refl, beq_iff, beq_of_ne, split, and_then, and_then-eq-inl, trim_suffix, All, arith,
  append_assoc, append-nil, length, length-append,
}
use ddns_updater_beget.Domain.{build_url_query_hostname}
use ddns_updater_beget.Params.{
  ParamsError, registered_next, effective_domain, owner_of, query_hostnames, owners_from,
  extract_from_domain_field,
}

longer_ne : (c : ℕ) (o s : Bytes) → (c ∷ o) ++ s ≢ s
longer_ne c o s e = omega (arith, length-append (c ∷ o) s, ap length e)

trim_suffix-append : (o : Bytes) (c : ℕ) (s : Bytes) → trim_suffix (o ++ c ∷ s) (c ∷ s) ≡ o
unfolding trim_suffix
trim_suffix-append [] c s = rw (beq_refl (c ∷ s)) refl
trim_suffix-append (d ∷ o) c s =
    rw (beq_of_ne (d ∷ (o ++ c ∷ s)) (c ∷ s) (longer_ne d o (c ∷ s)))
      (ap (λ x. d ∷ x) (trim_suffix-append o c s))

-- What a registered domain is to its domain, as EffectiveTLDPlusOne finds it: the domain itself, or
-- what follows one of its dots. The part before the dot is not the owner `@`.
abbrev pub IsRegistered : Bytes → Bytes ⊎ Error → Type 0
IsRegistered d (inl r) =
    (r ≢ []) × ((d ≡ r) ⊎ ((o : Bytes) × (d ≡ o ++ b'.' ∷ r) × (o ≢ codes "@")))
IsRegistered d (inr e) = Unit

longer_apart : (o r : Bytes) → o ++ b'.' ∷ r ≢ r
longer_apart o r e = omega (arith, length-append o (b'.' ∷ r), ap length e)

owner-hostname :
    (d r : Bytes) → IsRegistered d (inl r) → build_url_query_hostname (owner_of r d) r ≡ d
unfolding owner_of build_url_query_hostname
owner-hostname d r (h, inl e) = rw (e, beq_refl r) refl
owner-hostname d r (h, inr (o, e, at)) =
    rw (e, beq_of_ne (o ++ b'.' ∷ r) r (longer_apart o r))
      (rw (trim_suffix-append o b'.' r, beq_of_ne o (codes "@") at) refl)

query_hostnames-append :
    (r : Bytes) (os : List Bytes) (o : Bytes)
    → query_hostnames r (os ++ o ∷ []) ≡ query_hostnames r os ++ build_url_query_hostname o r ∷ []
unfolding query_hostnames
query_hostnames-append r [] o = refl
query_hostnames-append r (p ∷ os) o =
    ap (λ x. build_url_query_hostname p r ∷ x) (query_hostnames-append r os o)

registered_next-inl :
    {E : Type 0} (r newer : Bytes) {b : Bytes}
    → registered_next {E = E} r newer ≡ inl b
    → ((r ≡ []) × (b ≡ newer)) ⊎ ((b ≡ r) × (newer ≡ r))
unfolding registered_next
registered_next-inl r newer e = ground (arith, beq_iff r [], beq_iff r newer)

effective_domain-inl :
    {E : Type 0} (x : Bytes ⊎ Error) {b : Bytes} → effective_domain {E = E} x ≡ inl b → x ≡ inl b
unfolding effective_domain
effective_domain-inl (inl r) h = cc
effective_domain-inl (inr e) h = cc

module _ {E : Type 0} (effective : Bytes → Bytes ⊎ Error) where
  owners_from-nil :
      (r : Bytes) (os : List Bytes) {r' : Bytes} {os' : List Bytes}
      → owners_from {E = E} effective [] r os ≡ inl (r', os')
      → (r ≡ r') × (os ≡ os')
  unfolding owners_from
  owners_from-nil r os e = (cc, cc)

  owners_from-cons :
      (d : Bytes) (ds : List Bytes) (r : Bytes) (os : List Bytes) {z : Bytes × List Bytes}
      → owners_from {E = E} effective (d ∷ ds) r os ≡ inl z
      → (b : Bytes) × (((r ≡ []) × (effective d ≡ inl b)) ⊎ ((b ≡ r) × (effective d ≡ inl r)))
        × (owners_from {E = E} effective ds b (os ++ owner_of b d ∷ []) ≡ inl z)
  unfolding owners_from
  owners_from-cons d ds r os e =
      let rest : Bytes → (Bytes × List Bytes) ⊎ ParamsError E =
        λ b. owners_from effective ds b (os ++ owner_of b d ∷ []) in
      let (newer, found, e') =
        and_then-eq-inl (effective_domain {E = E} (effective d))
          (λ n. and_then (registered_next r n) rest) e in
      let (b, next, e'') = and_then-eq-inl (registered_next {E = E} r newer) rest e' in
      let at = effective_domain-inl {E = E} (effective d) found in
      (
        b,
        elim (registered_next-inl {E = E} r newer next) [
          | inl (empty, same) ↦ inl (empty, at ∙ ap inl (sym same))
          | inr (same, newer_same) ↦ inr (same, at ∙ ap inl newer_same)
        ],
        e'',
      )

  -- Once a domain is registered it stays, and each step adds the owner of a domain.
  owners_from-inl :
      (ds : List Bytes) (r : Bytes) (os : List Bytes) (r' : Bytes) (os' : List Bytes)
      → r ≢ []
      → All (λ d. IsRegistered d (effective d)) ds
      → owners_from {E = E} effective ds r os ≡ inl (r', os')
      → query_hostnames r' os' ≡ query_hostnames r os ++ ds
  owners_from-inl [] r os r' os' h all e =
      let (same, owners) = owners_from-nil r os e in
      rw (← same, ← owners) (sym (append-nil (query_hostnames r os)))
  owners_from-inl (d ∷ ds) r os r' os' h all e =
      let (b, which, rest) = owners_from-cons d ds r os e in
      elim which [
        | inl (empty, at) ↦ absurd (h empty)
        | inr (same, at) ↦
            let again =
              owners_from-inl ds r (os ++ owner_of r d ∷ []) r' os' h (all.1) (rw same at rest) in
            let name = owner-hostname d r (rw at at (all.0)) in
            again
            ∙ rw (query_hostnames-append r os (owner_of r d), name)
                (append_assoc (query_hostnames r os) (d ∷ []) ds)
      ]

  owners_from-none :
      (ds : List Bytes) (registered : Bytes) (owners : List Bytes)
      → All (λ d. IsRegistered d (effective d)) ds
      → owners_from {E = E} effective ds [] [] ≡ inl (registered, owners)
      → query_hostnames registered owners ≡ ds
  unfolding query_hostnames
  owners_from-none [] registered owners all e =
      let (same, none_found) = owners_from-nil [] [] e in rw (← same, ← none_found) refl
  owners_from-none (d ∷ ds) registered owners all e =
      let (b, which, rest) = owners_from-cons d ds [] [] e in
      elim which [
        | inl (empty, at) ↦
            let (set, found) = rw at at (all.0) in
            owners_from-inl ds b (owner_of b d ∷ []) registered owners set (all.1) rest
            ∙ ap (λ x. x ∷ ds) (owner-hostname d b (set, found))
        | inr (same, at) ↦ absurd ((rw at at (all.0)).0 refl)
      ]

  -- The owners that are extracted from a field of domains name the domains of the field, in its order,
  -- under the registered domain that they share; this is for registered domains as the package
  -- publicsuffix finds them, and no domain whose part before the registered one is `@`.
  pub extract_from_domain_field-names :
      (field registered : Bytes) (owners : List Bytes)
      → All (λ d. IsRegistered d (effective d)) (split b',' field)
      → extract_from_domain_field {E = E} effective field ≡ inl (registered, owners)
      → query_hostnames registered owners ≡ split b',' field
  unfolding extract_from_domain_field
  extract_from_domain_field-names field registered owners all e =
      owners_from-none (split b',' field) registered owners all e
