-- ===== src/Admission/Sketch/OverCount/Reference.antt =====
-- The exact counterpart of internal/admission/sketch.go: a window of the same slices whose buckets
-- keep the keys that were read and written.
use mathlib.Core.Path.{subst}
use cachet.Base.Int.{ℤ}
use cachet.Window.{Window, modify, roll}
use cachet.Window.Invariant.{kept_roll}
use cachet.Admission.Sketch.{Sketch, record_access, write_head}
use cachet.Admission.Sketch.OverCount.Estimate.{total_length}
use cachet.Base.{
  ℕ, zero, suc, ◌+◌, ◌≤◌, ◌≡◌, refl, Bool, true, false, Option, none, some, List, [], ◌∷◌, map,
  arith, length, replicate, Bytes,
}

pub record Exact : Type 0 where
  pub read_keys : List Bytes
  pub written_keys : List Bytes

abbrev pub no_keys : Exact
no_keys = record { read_keys = []; written_keys = [] }

abbrev pub forget : Exact → Exact
forget e = no_keys

abbrev pub push : Bytes → Bool → Exact → Exact
push key true e = record { read_keys = key ∷ e.read_keys; written_keys = e.written_keys }
push key false e = record { read_keys = e.read_keys; written_keys = key ∷ e.written_keys }

pub record Access : Type 0 where
  pub key : Bytes
  pub is_read : Bool
  pub now : ℤ
  pub later : ℤ

abbrev pub record_one : Sketch → Access → Option Sketch
record_one s a = record_access s a.key a.is_read a.now a.later

abbrev pub exact_pushed : Access → Option (Window Exact) → Option (Window Exact)
exact_pushed a none = none
exact_pushed a (some x) = some (write_head (push a.key a.is_read) x)

abbrev pub exact_one : ℕ → Window Exact → Access → Option (Window Exact)
exact_one slice x a = exact_pushed a (roll forget slice a.now a.later x)

abbrev pub bind {ℓ κ} : {A : Type ℓ} {B : Type κ} → Option A → (A → Option B) → Option B
bind none f = none
bind (some a) f = f a

pub bind-eq-some {ℓ κ} :
    {A : Type ℓ} {B : Type κ} (o : Option A) (f : A → Option B) {b : B}
    → bind o f ≡ some b
    → (a : A) × (o ≡ some a) × (f a ≡ some b)
bind-eq-some none f h = absurd (ground arith)
bind-eq-some (some a) f h = (a, refl, h)

unfoldable pub record_all : Sketch → List Access → Option Sketch
unfolding record_access
record_all s [] = some s
record_all s (a ∷ accesses) = bind (record_one s a) (λ t. record_all t accesses)

unfoldable pub exact_all : ℕ → Window Exact → List Access → Option (Window Exact)
exact_all slice x [] = some x
exact_all slice x (a ∷ accesses) = bind (exact_one slice x a) (λ y. exact_all slice y accesses)

abbrev pub new_exact : ℕ → ℤ → Window Exact
new_exact buckets start = record {
  buckets = replicate buckets no_keys;
  head = 0;
  head_start = start;
}

abbrev pub read_lists : Window Exact → List (List Bytes)
read_lists x = map (λ e. e.read_keys) x.buckets

abbrev pub write_lists : Window Exact → List (List Bytes)
write_lists x = map (λ e. e.written_keys) x.buckets

-- How many accesses a window holds.
unfoldable pub size : List Exact → ℕ
size [] = 0
size (e ∷ es) = length e.read_keys + length e.written_keys + size es

size-modify :
    (i : ℕ) (key : Bytes) (is_read : Bool) (es : List Exact)
    → size (modify i (push key is_read) es) ≤ size es + 1
unfolding size modify
size-modify i key is_read [] = omega arith
size-modify zero key true (e ∷ es) = omega arith
size-modify zero key false (e ∷ es) = omega arith
size-modify (suc i) key is_read (e ∷ es) = omega (arith, size-modify i key is_read es)

size-forget : (i : ℕ) (es : List Exact) → size (modify i forget es) ≤ size es
unfolding size modify
size-forget i [] = omega arith
size-forget zero (e ∷ es) = omega arith
size-forget (suc i) (e ∷ es) = omega (arith, size-forget i es)

size-map : (es : List Exact) → size (map forget es) ≡ 0
unfolding size
size-map [] = refl
size-map (e ∷ es) = omega (arith, size-map es)

pub size-roll :
    (n slice : ℕ) (now later : ℤ) (x y : Window Exact)
    → size x.buckets ≤ n
    → roll forget slice now later x ≡ some y
    → size y.buckets ≤ n
size-roll n slice now later x y h e =
    kept_roll forget (λ es. size es ≤ n) (λ i es le. let s = size-forget i es in omega arith)
      (λ es le. let s = size-map es in omega arith) slice now later x y h e

pub reads-size : (es : List Exact) → total_length (map (λ e. e.read_keys) es) ≤ size es
unfolding size total_length
reads-size [] = omega arith
reads-size (e ∷ es) = omega (arith, reads-size es)

pub writes-size : (es : List Exact) → total_length (map (λ e. e.written_keys) es) ≤ size es
unfolding size total_length
writes-size [] = omega arith
writes-size (e ∷ es) = omega (arith, writes-size es)

pub size-one :
    (n slice : ℕ) (x y : Window Exact) (a : Access)
    → size x.buckets ≤ n
    → exact_one slice x a ≡ some y
    → size y.buckets ≤ n + 1
size-one n slice x y a h e = pushed (roll forget slice a.now a.later x) refl e
  where
    pushed :
        (o : Option (Window Exact))
        → roll forget slice a.now a.later x ≡ o
        → exact_pushed a o ≡ some y
        → size y.buckets ≤ n + 1
    pushed none r e = absurd (ground arith)
    pushed (some w) r e =
        let kept = size-roll n slice a.now a.later x w h r in
        let more = size-modify w.head a.key a.is_read w.buckets in
        let same : modify w.head (push a.key a.is_read) w.buckets ≡ y.buckets = ground arith in
        subst (λ es. size es ≤ n + 1) same (omega arith)

pub size-fresh : (n : ℕ) → size (replicate n no_keys) ≡ 0
unfolding size
size-fresh zero = refl
size-fresh (suc n) = omega (arith, size-fresh n)
