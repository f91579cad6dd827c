-- ===== src/Admission/Sketch.antt =====
-- internal/admission/sketch.go: counts of reads and writes over a window in a count-min sketch. A table
-- is a list of uint32 cells, and a bucket is a table for reads and one for writes.
pub mod OverCount
use cachet.Base.Int.{ℤ, pos, pos_part, leb_ℤ}
use cachet.HashRing.{split_mix_64, fnv_1a}
use cachet.Window.{Window, modify, roll}
use cachet.Base.{
  ℕ, zero, suc, ◌+◌, ◌-◌, ◌*◌, ◌/◌, ◌%◌, ◌^◌, ◌≤◌, ◌<◌, min, max, bit_and, bit_or, bit_xor, ◌≡◌,
  refl, sym, ap, ◌∙◌, ◌≢◌, ◌↔◌, ◌⊎◌, inl, inr, Bool, true, false, not, ◌&&◌, ◌||◌, Option, none,
  some, List, [], ◌∷◌, ◌++◌, map, append_assoc, append-nil, arith, ltb, leb, ◌==◌, if◌then◌else◌,
  ltb→lt, lt→ltb, le→ltb, leb→le, le→leb, ==_iff, ==_refl, tests, Bool-cases, Option-cases, &&_true,
  length, get_elem?, get_or, set, take, drop, replicate, All, length-append, take_append,
  drop_append, length-replicate, All-append, Bytes, IsByte, ascii, bytes_eq, bytes_lt, bytes_le,
  eq_of_bytes_eq, bytes_eq_refl, bytes_eq_iff, bytes_eq_ne, Result, ok, err, ◌>>=◌, ◌>>◌, require,
}

abbrev pub default_width : ℤ
default_width = pos 4096

abbrev pub default_depth : ℤ
default_depth = pos 4

-- A minute, in nanoseconds.
abbrev pub default_window : ℤ
default_window = pos 60000000000

abbrev pub default_buckets : ℤ
default_buckets = pos 6

pub record SketchOptions : Type 0 where
  pub width_option : ℤ
  pub depth_option : ℤ
  pub window_option : ℤ
  pub buckets_option : ℤ

pub record Bucket : Type 0 where
  pub reads : List ℕ
  pub writes : List ℕ

pub record Sketch : Type 0 where
  pub width : ℕ
  pub depth : ℕ
  pub slice : ℕ
  pub live : Window Bucket

abbrev pub positive : ℤ → ℤ → ℕ
positive a d = if leb_ℤ a (pos 0) then pos_part d else pos_part a

abbrev pub zeros : ℕ → Bucket
zeros n = record { reads = replicate n 0; writes = replicate n 0 }

unfoldable pub new_sketch : SketchOptions → ℤ → Sketch
new_sketch o start =
    let width = positive o.width_option default_width in
    let depth = positive o.depth_option default_depth in
    let buckets = positive o.buckets_option default_buckets in
    record {
      width = width;
      depth = depth;
      slice = positive o.window_option default_window / buckets;
      live = record {
        buckets = replicate buckets (zeros (width * depth));
        head = 0;
        head_start = start;
      };
    }

abbrev pub zeroed : ℕ → ℕ
zeroed v = 0

-- `clear(s.reads[b]); clear(s.writes[b])`
unfoldable pub clear_bucket : Bucket → Bucket
clear_bucket b = record { reads = map zeroed b.reads; writes = map zeroed b.writes }

-- The digest goes on with the row as one more byte.
unfoldable pub cell : ℕ → Bytes → ℕ → ℕ
cell width key row =
    let x = split_mix_64 (fnv_1a 14695981039346656037 (key ++ bit_and row 255 ∷ [])) in
    let width' = if width == 0 then pos_part default_width else width in
    row * width' + bit_and (x % width') (2 ^ 31 - 1)

-- The cells of the rows from `row` on; `left` of them are left.
unfoldable pub cells_from : ℕ → Bytes → ℕ → ℕ → List ℕ
cells_from width key row zero = []
cells_from width key row (suc left) = cell width key row ∷ cells_from width key (row + 1) left

unfoldable pub cells : Sketch → Bytes → List ℕ
cells s key = cells_from s.width key 0 s.depth

-- `table[c]++` on a uint32
unfoldable pub increment : List ℕ → List ℕ → List ℕ
increment [] table = table
increment (c ∷ cs) table = increment cs (modify c (λ v. (v + 1) % 2 ^ 32) table)

abbrev pub add_to : Bool → List ℕ → Bucket → Bucket
add_to true cs b = record { reads = increment cs b.reads; writes = b.writes }
add_to false cs b = record { reads = b.reads; writes = increment cs b.writes }

abbrev pub with_window : Sketch → Window Bucket → Sketch
with_window s w = record { width = s.width; depth = s.depth; slice = s.slice; live = w }

abbrev pub write_head : {A : Type 0} → (A → A) → Window A → Window A
write_head f w = record {
  buckets = modify w.head f w.buckets;
  head = w.head;
  head_start = w.head_start;
}

abbrev pub recorded : Sketch → List ℕ → Bool → Option (Window Bucket) → Option Sketch
recorded s cs is_read none = none
recorded s cs is_read (some w) = some (with_window s (write_head (add_to is_read cs) w))

-- `record`; `none` is the panic of `rollLocked`.
unfoldable pub record_access : Sketch → Bytes → Bool → ℤ → ℤ → Option Sketch
record_access s key is_read now later =
    recorded s (cells s key) is_read (roll clear_bucket s.slice now later s.live)

-- The inner loop of `estimateLocked`. An index out of range reads 0 where Go panics.
unfoldable pub min_cell : ℕ → List ℕ → List ℕ → ℕ
min_cell least table [] = least
min_cell least table (c ∷ cs) =
    let v = get_or table c 0 in min_cell (if ltb v least then v else least) table cs

unfoldable pub estimate : List (List ℕ) → List ℕ → ℕ → ℕ
estimate [] cs total = total
estimate (table ∷ tables) cs total =
    estimate tables cs ((total + min_cell (2 ^ 32 - 1) table cs) % 2 ^ 32)

abbrev pub estimates : Window Bucket → List ℕ → ℕ × ℕ
estimates w cs =
    (estimate (map (λ b. b.reads) w.buckets) cs 0, estimate (map (λ b. b.writes) w.buckets) cs 0)

abbrev pub counted : Sketch → List ℕ → Option (Window Bucket) → Option ((ℕ × ℕ) × Sketch)
counted s cs none = none
counted s cs (some w) = some (estimates w cs, with_window s w)

unfoldable pub counts : Sketch → Bytes → ℤ → ℤ → Option ((ℕ × ℕ) × Sketch)
counts s key now later = counted s (cells s key) (roll clear_bucket s.slice now later s.live)

-- `Cells`
unfoldable pub cell_count : Sketch → ℕ
cell_count s = s.width * s.depth
