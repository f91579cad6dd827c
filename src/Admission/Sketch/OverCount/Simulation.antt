-- ===== src/Admission/Sketch/OverCount/Simulation.antt =====
-- internal/admission/sketch.go: the sketch's window and the exact one take the same steps.
use mathlib.Core.Path.{subst}
use cachet.Base.Int.{ℤ}
use cachet.Window.{Window, modify, roll}
use cachet.Window.Simulation.{AllPairs, Related, RelatedOption, AllPairs-modify, Related-roll}
use cachet.Admission.Sketch.{
  zeros, Bucket, Sketch, clear_bucket, cells_from, cells, add_to, with_window, write_head, recorded,
  record_access, estimates,
}
use cachet.Admission.Sketch.OverCount.Table.{
  Covers, occurrences, Covers-increment, Covers-clear, Covers-zeros,
}
use cachet.Admission.Sketch.OverCount.Estimate.{
  AllCovers, total_occurrences, total_length, estimate-ge,
}
use cachet.Admission.Sketch.OverCount.Reference.{
  Exact, no_keys, forget, push, Access, record_one, exact_pushed, exact_one, bind-eq-some, bind,
  record_all, exact_all, read_lists, write_lists, size, reads-size, writes-size, size-one,
}
use cachet.Base.{
  ℕ, zero, suc, ◌+◌, ◌*◌, ◌^◌, ◌≤◌, ◌<◌, ◌≡◌, refl, sym, ap, ◌∙◌, Bool, true, false, Option, none,
  some, List, [], ◌∷◌, map, arith, length, replicate, Bytes,
}

module _ (width depth : ℕ) (wide : 0 < width) where
  abbrev pub Rel : Bucket → Exact → Type 0
  Rel b e = Covers width depth b.reads e.read_keys × Covers width depth b.writes e.written_keys

  Rel-clear : (b : Bucket) (e : Exact) → Rel b e → Rel (clear_bucket b) (forget e)
  unfolding clear_bucket
  Rel-clear b e (r, w) = (
    Covers-clear width depth b.reads e.read_keys r,
    Covers-clear width depth b.writes e.written_keys w,
  )

  Rel-push :
      (key : Bytes) (is_read : Bool) (b : Bucket) (e : Exact)
      → Rel b e
      → Rel (add_to is_read (cells_from width key 0 depth) b) (push key is_read e)
  Rel-push key true b e (r, w) = (Covers-increment width depth b.reads e.read_keys key wide r, w)
  Rel-push key false b e (r, w) =
      (r, Covers-increment width depth b.writes e.written_keys key wide w)

  Related-push :
      (key : Bytes) (is_read : Bool) (v : Window Bucket) (x : Window Exact)
      → Related Rel v x
      → Related Rel
          (write_head (add_to is_read (cells_from width key 0 depth)) v)
          (write_head (push key is_read) x)
  Related-push key is_read v x (head, (start, pairs)) = (
    head,
    (
      start,
      subst
          (λ i.
            AllPairs Rel (modify v.head (add_to is_read (cells_from width key 0 depth)) v.buckets)
              (modify i (push key is_read) x.buckets))
          head
          (AllPairs-modify Rel (add_to is_read (cells_from width key 0 depth)) (push key is_read)
            (Rel-push key is_read) v.head v.buckets x.buckets pairs),
    ),
  )

  AllCovers-reads :
      (bs : List Bucket) (es : List Exact)
      → AllPairs Rel bs es
      → AllCovers width depth (map (λ b. b.reads) bs) (map (λ e. e.read_keys) es)
  AllCovers-reads [] [] h = tt
  AllCovers-reads [] (e ∷ es) h = absurd h
  AllCovers-reads (b ∷ bs) [] h = absurd h
  AllCovers-reads (b ∷ bs) (e ∷ es) h = (h.0.0, AllCovers-reads bs es h.1)

  AllCovers-writes :
      (bs : List Bucket) (es : List Exact)
      → AllPairs Rel bs es
      → AllCovers width depth (map (λ b. b.writes) bs) (map (λ e. e.written_keys) es)
  AllCovers-writes [] [] h = tt
  AllCovers-writes [] (e ∷ es) h = absurd h
  AllCovers-writes (b ∷ bs) [] h = absurd h
  AllCovers-writes (b ∷ bs) (e ∷ es) h = (h.0.1, AllCovers-writes bs es h.1)

  -- The exact counts of a key in related windows are below the estimates.
  pub estimates-ge :
      (v : Window Bucket) (x : Window Exact) (key : Bytes)
      → 0 < depth
      → Related Rel v x
      → size x.buckets * depth < 2 ^ 32
      → (total_occurrences key (read_lists x) ≤ (estimates v (cells_from width key 0 depth)).0)
        × (total_occurrences key (write_lists x) ≤ (estimates v (cells_from width key 0 depth)).1)
  estimates-ge v x key deep (head, (start, pairs)) room =
      let r = reads-size x.buckets in
      let w = writes-size x.buckets in
      let rd : total_length (read_lists x) * depth ≤ size x.buckets * depth = grind arith in
      let wd : total_length (write_lists x) * depth ≤ size x.buckets * depth = grind arith in
      (
        estimate-ge width depth (map (λ b. b.reads) v.buckets) (read_lists x) key deep
            (AllCovers-reads v.buckets x.buckets pairs) (omega arith),
        estimate-ge width depth (map (λ b. b.writes) v.buckets) (write_lists x) key deep
            (AllCovers-writes v.buckets x.buckets pairs) (omega arith),
      )

  pub rolled :
      (slice : ℕ) (now later : ℤ) (v v' : Window Bucket) (x : Window Exact)
      → Related Rel v x
      → roll clear_bucket slice now later v ≡ some v'
      → (x' : Window Exact) × (roll forget slice now later x ≡ some x') × Related Rel v' x'
  rolled slice now later v v' x h e = matched (roll forget slice now later x) refl (
      subst (λ o. RelatedOption Rel o (roll forget slice now later x)) e
        (Related-roll Rel clear_bucket forget Rel-clear slice now later v x h))
    where
      matched :
          (o : Option (Window Exact))
          → roll forget slice now later x ≡ o
          → RelatedOption Rel (some v') o
          → (x' : Window Exact) × (roll forget slice now later x ≡ some x') × Related Rel v' x'
      matched none r h = absurd h
      matched (some x') r h = (x', r, h)

  pub deep_cells :
      (s : Sketch) (key : Bytes)
      → s.width ≡ width
      → s.depth ≡ depth
      → cells s key ≡ cells_from width key 0 depth
  unfolding cells
  deep_cells s key w d = rw (w, d) refl

  -- One access keeps the windows related.
  one-Related :
      (s t : Sketch) (x : Window Exact) (a : Access)
      → s.width ≡ width
      → s.depth ≡ depth
      → Related Rel s.live x
      → record_one s a ≡ some t
      → (y : Window Exact) × (exact_one s.slice x a ≡ some y)
        × Related Rel t.live y
        × (t.width ≡ width)
        × (t.depth ≡ depth)
        × (t.slice ≡ s.slice)
  unfolding record_access
  one-Related s t x a w d h e = pushed (roll clear_bucket s.slice a.now a.later s.live) refl e
    where
      pushed :
          (o : Option (Window Bucket))
          → roll clear_bucket s.slice a.now a.later s.live ≡ o
          → recorded s (cells s a.key) a.is_read o ≡ some t
          → (y : Window Exact) × (exact_one s.slice x a ≡ some y)
            × Related Rel t.live y
            × (t.width ≡ width)
            × (t.depth ≡ depth)
            × (t.slice ≡ s.slice)
      pushed none r e = absurd (ground arith)
      pushed (some v) r e =
          let (x', rx, rel) = rolled s.slice a.now a.later s.live v x h r in
          let made : with_window s (write_head (add_to a.is_read (cells s a.key)) v) ≡ t =
            ground arith in
          let rel' =
            subst
              (λ cs.
                Related Rel (write_head (add_to a.is_read cs) v)
                  (write_head (push a.key a.is_read) x'))
              (sym (deep_cells s a.key w d)) (Related-push a.key a.is_read v x' rel) in
          (
            write_head (push a.key a.is_read) x',
            ap (exact_pushed a) rx,
            subst (λ u. Related Rel u.live (write_head (push a.key a.is_read) x')) made rel',
            sym (ap (λ u. u.width) made) ∙ w,
            sym (ap (λ u. u.depth) made) ∙ d,
            sym (ap (λ u. u.slice) made),
          )

  pub all-Related :
      (accesses : List Access) (s t : Sketch) (x : Window Exact) (n : ℕ)
      → s.width ≡ width
      → s.depth ≡ depth
      → Related Rel s.live x
      → size x.buckets ≤ n
      → record_all s accesses ≡ some t
      → (y : Window Exact) × (exact_all s.slice x accesses ≡ some y)
        × Related Rel t.live y
        × (size y.buckets ≤ n + length accesses)
        × (t.width ≡ width)
        × (t.depth ≡ depth)
        × (t.slice ≡ s.slice)
  unfolding record_all exact_all
  all-Related [] s t x n w d h le e =
      let same : s ≡ t = ground arith in
      (
        x,
        refl,
        subst (λ u. Related Rel u.live x) same h,
        omega arith,
        sym (ap (λ u. u.width) same) ∙ w,
        sym (ap (λ u. u.depth) same) ∙ d,
        sym (ap (λ u. u.slice) same),
      )
  all-Related (a ∷ accesses) s t x n w d h le e =
      let (u, one, rest) = bind-eq-some (record_one s a) (λ u. record_all u accesses) e in
      let (y, ex, rel, uw, ud, us) = one-Related s u x a w d h one in
      let (z, ez, relz, lez, tw, td, ts) =
        all-Related accesses u t y (n + 1) uw ud rel (size-one n s.slice x y a le ex) rest in
      (
        z,
        ap (λ o. bind o (λ k. exact_all s.slice k accesses)) ex
            ∙ ap (λ l. exact_all l y accesses) (sym us)
            ∙ ez,
        relz,
        omega arith,
        tw,
        td,
        ts ∙ us,
      )

  pub AllPairs-fresh :
      (n : ℕ) → AllPairs Rel (replicate n (zeros (width * depth))) (replicate n no_keys)
  unfolding occurrences
  AllPairs-fresh zero = tt
  AllPairs-fresh (suc n) = ((Covers-zeros width depth, Covers-zeros width depth), AllPairs-fresh n)
