-- ===== src/Storage/Hlc/Pack.antt =====
-- The packing of a version: 48 bits of milliseconds over 16 bits of counter.
use cachet.Base.Bits.{bit_or_fields, bit_and_mask}
use cachet.Base.Int.{ℤ, pos, negsuc}
use cachet.Base.{ℕ, ◌+◌, ◌*◌, ◌%◌, ◌^◌, ◌≤◌, ◌<◌, ◌≡◌, refl, ap, ◌↔◌, ◌⊎◌, some, arith}
use cachet.Storage.Hlc.{new_version, physical_millis, logical, max_physical_millis, max_logical}

-- Within its ranges a version is a sum.
pub new_version_sum :
    (p l : ℕ)
    → p ≤ max_physical_millis
    → l ≤ max_logical
    → new_version (pos p) l ≡ some (p * 65536 + l)
unfolding new_version
new_version_sum p l hp hl = ground (arith, bit_or_fields 16 p l (omega arith))

pub logical_lem : (v : ℕ) → logical v ≡ v % 65536
unfolding logical
logical_lem v = omega (arith, bit_and_mask 16 v)

new_version_range :
    (p : ℤ) (l : ℕ) {v : ℕ}
    → new_version p l ≡ some v
    → (m : ℕ) × (p ≡ pos m) × (m ≤ max_physical_millis)
unfolding new_version
new_version_range (pos m) l h = (m, refl, ground arith)
new_version_range (negsuc m) l h = ground arith

-- Whatever `NewVersion` accepts, the two accessors give back, and it fits in 64 bits.
pub unpack-new_version :
    (p : ℤ) (l : ℕ) (v : ℕ)
    → l ≤ max_logical
    → new_version p l ≡ some v
    → (pos (physical_millis v) ≡ p) × (logical v ≡ l) × (v < 2 ^ 64)
unfolding physical_millis
unpack-new_version p l v hl h =
    let (m, e, hm) = new_version_range p l h in
    let sum : v ≡ m * 65536 + l = ground (arith, new_version_sum m l hm hl) in
    (rw e (ap pos (omega arith)), omega (arith, logical_lem v), omega arith)

-- The order of versions is the order of milliseconds, then of counters.
pub new_version-lt_iff :
    (p q l k v w : ℕ)
    → l ≤ max_logical
    → k ≤ max_logical
    → new_version (pos p) l ≡ some v
    → new_version (pos q) k ≡ some w
    → (v < w) ↔ ((p < q) ⊎ ((p ≡ q) × (l < k)))
new_version-lt_iff p q l k v w hl hk hv hw =
    let (m, e, hm) = new_version_range (pos p) l hv in
    let (n, f, hn) = new_version_range (pos q) k hw in
    let ep : p ≡ m = ground arith in
    let eq : q ≡ n = ground arith in
    let sv : v ≡ p * 65536 + l = ground (arith, new_version_sum p l (omega arith) hl) in
    let sw : w ≡ q * 65536 + k = ground (arith, new_version_sum q k (omega arith) hk) in
    (λ h. ground arith, λ h. ground arith)
