-- ===== src/Admission/Sketch/OverCount.antt =====
-- internal/admission/sketch.go against exact counts over the same slices.
pub mod Table
pub mod Estimate
pub mod Reference
mod Simulation
use mathlib.Core.Path.{subst}
use cachet.Base.Int.{ℤ, pos, negsuc, pos_part}
use cachet.Window.{Window, roll}
use cachet.Window.Invariant.{roll-some}
use cachet.Window.Simulation.{Related}
use cachet.Admission.Sketch.{
  SketchOptions, Bucket, Sketch, new_sketch, clear_bucket, cells_from, cells, counted, counts,
  record_access, recorded, add_to, with_window, write_head, positive, zeros, estimates,
  default_width, default_depth, default_buckets, default_window,
}
use Estimate.{total_occurrences}
use Reference.{
  Exact, forget, record_one, bind, Access, record_all, exact_all, new_exact, read_lists,
  write_lists, size, size-fresh, size-roll,
}
use Simulation.{Rel, estimates-ge, rolled, all-Related, deep_cells, AllPairs-fresh}
use cachet.Base.{
  ℕ, zero, suc, ◌+◌, ◌-◌, ◌*◌, ◌/◌, ◌%◌, ◌^◌, ◌≤◌, ◌<◌, min, max, bit_and, bit_or, bit_xor, ◌≡◌,
  refl, sym, ap, ◌∙◌, ◌≢◌, ◌↔◌, ◌⊎◌, inl, inr, Bool, true, false, not, ◌&&◌, ◌||◌, Option, none,
  some, List, [], ◌∷◌, ◌++◌, map, append_assoc, append-nil, arith, ltb, leb, ◌==◌, if◌then◌else◌,
  ltb→lt, lt→ltb, le→ltb, leb→le, le→leb, ==_iff, ==_refl, tests, Bool-cases, Option-cases, &&_true,
  length, get_elem?, get_or, set, take, drop, replicate, All, length-append, take_append,
  drop_append, length-replicate, All-append, Bytes, IsByte, ascii, bytes_eq, bytes_lt, bytes_le,
  eq_of_bytes_eq, bytes_eq_refl, bytes_eq_iff, bytes_eq_ne, Result, ok, err, ◌>>=◌, ◌>>◌, require,
}

record_one-some :
    (s : Sketch) (a : Access)
    → 0 < s.slice
    → (t : Sketch) × (record_one s a ≡ some t) × (t.slice ≡ s.slice)
unfolding record_access
record_one-some s a positive =
    let (w, e) = roll-some clear_bucket s.slice a.now a.later s.live positive in
    (
      with_window s (write_head (add_to a.is_read (cells s a.key)) w),
      ap (recorded s (cells s a.key) a.is_read) e,
      refl,
    )

record_all-some :
    (accesses : List Access) (s : Sketch)
    → 0 < s.slice
    → (t : Sketch) × (record_all s accesses ≡ some t)
unfolding record_all
record_all-some [] s positive = (s, refl)
record_all-some (a ∷ accesses) s positive =
    let (t, e, same) = record_one-some s a positive in
    let (u, f) = record_all-some accesses t (subst (λ n. 0 < n) (sym same) positive) in
    (u, ap (λ o. bind o (λ k. record_all k accesses)) e ∙ f)

positive_lt : (a d : ℤ) → 0 < pos_part d → 0 < positive a d
positive_lt (negsuc n) d h = let e : leb 0 (0 + suc n) ≡ true = ground arith in rw e h
positive_lt (pos zero) d h = h
positive_lt (pos (suc n)) d h =
    let e : leb (suc n + 0) (0 + 0) ≡ false = ground arith in rw e (omega arith)

-- What the sketch returns for a key, and the exact counts of the key in the same slices.
abbrev pub Counted : SketchOptions → ℤ → List Access → Bytes → ℤ → ℤ → Type 0
Counted o start accesses key now later =
    let fresh = new_sketch o start in
    (s : Sketch) × (s' : Sketch) × (seen : ℕ × ℕ) × (x : Window Exact) × (y : Window Exact)
    × (record_all fresh accesses ≡ some s)
    × (counts s key now later ≡ some (seen, s'))
    × (exact_all fresh.slice (new_exact (length fresh.live.buckets) start) accesses ≡ some x)
    × (roll forget fresh.slice now later x ≡ some y)
    × (total_occurrences key (read_lists y) ≤ seen.0)
    × (total_occurrences key (write_lists y) ≤ seen.1)

-- After any reads and writes of a new sketch, whose slice is positive, `Counts` of any key returns
-- numbers that are at least the reads and the writes of the key that the slices still in the window
-- hold, as long as the cells cannot wrap.
pub counts-ge_exact :
    (o : SketchOptions) (start : ℤ) (accesses : List Access) (key : Bytes) (now later : ℤ)
    → 0 < (new_sketch o start).slice
    → length accesses * (new_sketch o start).depth < 2 ^ 32
    → Counted o start accesses key now later
unfolding new_sketch counts
counts-ge_exact o start accesses key now later runs room =
    let fresh = new_sketch o start in
    let width = positive o.width_option default_width in
    let depth = positive o.depth_option default_depth in
    let n = positive o.buckets_option default_buckets in
    let wide : 0 < width = positive_lt o.width_option default_width (omega arith) in
    let deep : 0 < depth = positive_lt o.depth_option default_depth (omega arith) in
    let x0 = new_exact n start in
    let (s, e) = record_all-some accesses fresh runs in
    let (x, ex, rel, le, w, d, sl) =
      all-Related width depth wide accesses fresh s x0 0 refl refl
        (refl, (refl, AllPairs-fresh width depth wide n)) (omega (arith, size-fresh n)) e in
    let (v, re) =
      roll-some clear_bucket s.slice now later s.live (subst (λ k. 0 < k) (sym sl) runs) in
    let (y, ry, rel') = rolled width depth wide s.slice now later s.live v x rel re in
    let small = size-roll (0 + length accesses) s.slice now later x y le ry in
    let fits : size y.buckets * depth < 2 ^ 32 = grind arith in
    let least = estimates-ge width depth wide v y key deep rel' fits in
    (
      s,
      with_window s v,
      estimates v (cells_from width key 0 depth),
      x,
      y,
      e,
      ap (counted s (cells s key)) re
          ∙ ap (λ cs. some (estimates v cs, with_window s v))
              (deep_cells width depth wide s key w d),
      ap (λ k. exact_all fresh.slice (new_exact k start) accesses)
            (length-replicate n (zeros (width * depth)))
          ∙ ex,
      ap (λ k. roll forget k now later x) (sym sl) ∙ ry,
      least.0,
      least.1,
    )
