-- ===== src/Config/Accepted.antt =====
-- internal/config/config.go: an accepted configuration is one that the components take as it is.
use cachet.Base.Float.{Float}
use cachet.Base.Int.{ℤ, pos, ltb_ℤ}
use cachet.HashRing.{is_member}
use cachet.Storage.Shard.{Router, topology, router_of, new_router}
use cachet.Storage.Shard as shard
use cachet.Breaker as breaker
use cachet.Admission.Policy as policy
use cachet.Config.{
  Shard, Gutter, Admission, Breaker, shards_from, validate_shards, gutter_from, validate_gutter,
  validate_admission, validate_breaker, breaker_options, policy_options,
}
use cachet.Base.{
  ℕ, ◌+◌, ◌<◌, ◌≡◌, refl, sym, ap, ◌∙◌, ◌⊎◌, inl, inr, true, false, ◌||◌, List, [], ◌∷◌, ◌++◌, map,
  append_assoc, append-nil, arith, ◌==◌, if◌then◌else◌, Bool-cases, length, Bytes, bytes_eq, Result,
  ok, ◌>>=◌,
}

module _ (float : Float) where
  -- Breaker settings that the configuration accepts make a breaker.
  pub new-breaker_options :
      (c : Breaker float) (start : ℤ)
      → validate_breaker float c ≡ ok tt
      → breaker.new float (breaker_options float c) start
        ≡ ok (breaker.fresh float (breaker_options float c) start)
  unfolding validate_breaker breaker.new breaker.check breaker_options
  new-breaker_options c start h = ground arith

  -- Admission settings that the configuration accepts are those of the policy: it passes its own check,
  -- and only a least number of samples that is zero is replaced.
  pub new_policy_checked-policy_options :
      (c : Admission float)
      → c.enabled ≡ true
      → validate_admission float c ≡ ok tt
      → policy.new_policy_checked float (policy_options float c)
        ≡ ok (record (policy_options float c) {
          min_samples = if c.min_samples == 0 then 20 else c.min_samples;
        })
  unfolding validate_admission policy.new_policy_checked policy.new_policy policy_options
  new_policy_checked-policy_options c on h = ground arith

is_member-append :
    (k s : Bytes) (names : List Bytes)
    → is_member k (names ++ s ∷ []) ≡ (bytes_eq s k || is_member k names)
unfolding is_member
is_member-append k s [] = refl
is_member-append k s (n ∷ names) = ground (arith, is_member-append k s names)

topology-ids :
    (i : ℕ) (shards : List Shard) (seen names : List Bytes)
    → ((k : Bytes) → is_member k seen ≡ is_member k names)
    → shards_from i seen shards ≡ ok tt
    → topology names (map (λ s. s.id) shards) ≡ ok (names ++ map (λ s. s.id) shards)
unfolding topology shards_from is_member
topology-ids i [] seen names same h = ap ok (sym (append-nil names))
topology-ids i (sh ∷ shards) seen names same h =
    let full : bytes_eq sh.id [] ≡ false = ground arith in
    let new_ : is_member sh.id seen ≡ false = ground arith in
    let rest : shards_from (i + 1) (sh.id ∷ seen) shards ≡ ok tt = ground arith in
    let absent : is_member sh.id names ≡ false = sym (same sh.id) ∙ new_ in
    let more =
      topology-ids (i + 1) shards (sh.id ∷ seen) (names ++ sh.id ∷ [])
        (λ k. ap (λ b. bytes_eq sh.id k || b) (same k) ∙ sym (is_member-append k sh.id names))
        rest in
    go sh.id names (map (λ s. s.id) shards) full absent
      (more ∙ ap ok (append_assoc names (sh.id ∷ []) (map (λ s. s.id) shards)))
  where
    go :
        (s : Bytes) (names shards : List Bytes) {out : Result shard.Error (List Bytes)}
        → bytes_eq s [] ≡ false
        → is_member s names ≡ false
        → topology (names ++ s ∷ []) shards ≡ out
        → topology names (s ∷ shards) ≡ out
    go s names shards full absent e = rw (full, absent) e

-- Shards that the configuration accepts make a router over all their names, none of them dropped.
pub new_router-shards :
    (shards : List Shard)
    → validate_shards shards ≡ ok tt
    → new_router (map (λ s. s.id) shards) ≡ ok (router_of (map (λ s. s.id) shards))
unfolding validate_shards new_router is_member
new_router-shards [] h = absurd (ground arith)
new_router-shards (sh ∷ shards) h =
    ap (λ o. o >>= λ names. ok (router_of names)) (topology-ids 0 (sh ∷ shards) [] [] (λ k. refl) h)

-- What the loop over the gutter checks of its addresses.
abbrev pub IsStandby : List Bytes → List Bytes → List Bytes → Type 0
IsStandby primary seen [] = Unit
IsStandby primary seen (addr ∷ addresses) =
    (bytes_eq addr [] ≡ false)
    × (is_member addr seen ≡ false)
    × (is_member addr primary ≡ false)
    × IsStandby primary (addr ∷ seen) addresses

gutter_from-IsStandby :
    (primary : List Bytes) (i : ℕ) (seen addresses : List Bytes)
    → gutter_from primary i seen addresses ≡ ok tt
    → IsStandby primary seen addresses
unfolding gutter_from
gutter_from-IsStandby primary i seen [] h = tt
gutter_from-IsStandby primary i seen (addr ∷ addresses) h =
    let rest : gutter_from primary (i + 1) (addr ∷ seen) addresses ≡ ok tt = ground arith in
    (
      ground arith,
      ground arith,
      ground arith,
      gutter_from-IsStandby primary (i + 1) (addr ∷ seen) addresses rest,
    )

-- A gutter that the configuration accepts is empty, or it stands by for a pool that has nodes, its time to
-- live is positive, and its addresses are not empty, distinct, and none of the pool's.
pub validate_gutter-IsStandby :
    (g : Gutter) (primary : List Bytes)
    → validate_gutter g primary ≡ ok tt
    → (length g.gutter_addresses ≡ 0)
      ⊎ ((0 < length primary)
          × (ltb_ℤ (pos 0) g.gutter_ttl ≡ true)
          × IsStandby primary [] g.gutter_addresses)
unfolding validate_gutter
validate_gutter-IsStandby g primary h = elim (Bool-cases (length g.gutter_addresses == 0)) [
  | inl empty ↦ inl (ground arith)
  | inr some_ ↦
      let pool : (length primary == 0) ≡ false = ground arith in
      let lives : ltb_ℤ (pos 0) g.gutter_ttl ≡ true = ground arith in
      let loop : gutter_from primary 0 [] g.gutter_addresses ≡ ok tt = ground arith in
      inr (ground arith, lives, gutter_from-IsStandby primary 0 [] g.gutter_addresses loop)
]

-- A configuration that is accepted, with admission enabled, is one that the components take: the shards
-- make a router over all their names, the breaker's settings make a breaker, and the policy passes its
-- own check with the same settings, but for a least number of samples of zero.
pub accepted-made :
    (float : Float) (shards : List Shard) (b : Breaker float) (a : Admission float) (start : ℤ)
    → validate_shards shards ≡ ok tt
    → validate_breaker float b ≡ ok tt
    → a.enabled ≡ true
    → validate_admission float a ≡ ok tt
    → (new_router (map (λ s. s.id) shards) ≡ ok (router_of (map (λ s. s.id) shards)))
      × (breaker.new float (breaker_options float b) start
          ≡ ok (breaker.fresh float (breaker_options float b) start))
      × (policy.new_policy_checked float (policy_options float a)
          ≡ ok (record (policy_options float a) {
            min_samples = if a.min_samples == 0 then 20 else a.min_samples;
          }))
accepted-made float shards b a start vs vb on va = (
  new_router-shards shards vs,
  new-breaker_options float b start vb,
  new_policy_checked-policy_options float a on va,
)
