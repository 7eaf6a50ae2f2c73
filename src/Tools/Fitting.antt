-- ===== src/Tools/Fitting.antt =====
-- tools/__init__.py, `_truncate_json` and `_smart_truncate`: what a cut output keeps, and how long it is.
use lucyd.Base.{
  ℕ, zero, suc, ◌+◌, ◌-◌, ◌/◌, ◌≤◌, ◌<◌, Text, ◌≡◌, refl, ◌∙◌, ap, sym, Bool, true, false, ◌⊎◌, inl,
  inr, Option, [], ◌∷◌, ◌++◌, length, take, drop, drop_all, length-append, length-take,
  take-append-drop, length-drop, lit, ltb, leb→le, Bool-cases, arith,
}
use lucyd.Message.{Json, Items}
use lucyd.Tools.Truncate.{
  count, skipped_marker, last_chars, candidate, shown, fits, search_size, truncate_json,
  head_and_tail,
}

drop-drop : (m n : ℕ) (t : Text) → drop n (drop m t) ≡ drop (m + n) t
drop-drop zero n t = ap (λ k. drop k t) (omega arith)
drop-drop (suc m) zero [] = sym (drop_all _ [] (omega arith))
drop-drop (suc m) (suc n) [] = sym (drop_all _ [] (omega arith))
drop-drop (suc m) n (c ∷ t) = drop-drop m n t ∙ step
  where
    step : drop (m + n) t ≡ drop (suc m + n) (c ∷ t)
    step = ap (λ (k : ℕ). drop k (c ∷ t)) later
      where
        later : suc (m + n) ≡ suc m + n
        later = omega arith

module _ (loads : Text → Option Json) (dumps : Json → Text) (head_share : ℕ → ℕ)
    (near_end : ℕ → ℕ → Bool) where
  shown_le :
      (limit : ℕ) (data_ : Items) (n : ℕ)
      → fits loads dumps head_share near_end limit data_ n ≡ true
      → length (shown loads dumps head_share near_end data_ n) ≤ limit
  unfolding fits shown candidate
  shown_le limit data_ n h = elim (Bool-cases (ltb n (count data_))) [
    | inl more ↦ rw (more, length-append) (leb→le _ _ h)
    | inr whole ↦ rw (whole, length-append) (omega (arith, leb→le _ _ h))
  ]

  -- What the search over the sizes from `lo` up to `hi` returns: a size that fits, right below one that does
  -- not or below `hi`; or, when the least size does not fit, what it had before.
  abbrev pub Found : ℕ → Items → ℕ → ℕ → Text → Text → Type 0
  Found limit data_ lo hi best result =
      ((result ≡ best)
        × ((lo ≡ hi) ⊎ (fits loads dumps head_share near_end limit data_ lo ≡ false)))
      ⊎ ((n : ℕ) × (lo ≤ n)
          × (n < hi)
          × (result ≡ shown loads dumps head_share near_end data_ n)
          × (fits loads dumps head_share near_end limit data_ n ≡ true)
          × ((n + 1 ≡ hi) ⊎ (fits loads dumps head_share near_end limit data_ (n + 1) ≡ false)))

  Found-above :
      (limit : ℕ) (data_ : Items) (lo mid hi : ℕ) (best result : Text)
      → lo ≤ mid
      → mid < hi
      → fits loads dumps head_share near_end limit data_ mid ≡ true
      → Found limit data_ (mid + 1) hi (shown loads dumps head_share near_end data_ mid) result
      → Found limit data_ lo hi best result
  Found-above limit data_ lo mid hi best result l h f (inl (e, stop)) = inr (mid, l, h, e, f, stop)
  Found-above limit data_ lo mid hi best result l h f (inr (n, a, b, e, g, stop)) =
      inr (n, omega arith, b, e, g, stop)

  Found-below :
      (limit : ℕ) (data_ : Items) (lo mid hi : ℕ) (best result : Text)
      → lo ≤ mid
      → mid < hi
      → fits loads dumps head_share near_end limit data_ mid ≡ false
      → Found limit data_ lo mid best result
      → Found limit data_ lo hi best result
  Found-below limit data_ lo mid hi best result l h f (inl (e, inl same)) = inl (e, inr (rw same f))
  Found-below limit data_ lo mid hi best result l h f (inl (e, inr not_lo)) = inl (e, inr not_lo)
  Found-below limit data_ lo mid hi best result l h f (inr (n, a, b, e, g, inl top)) =
      inr (n, a, omega arith, e, g, inr (rw top f))
  Found-below limit data_ lo mid hi best result l h f (inr (n, a, b, e, g, inr not_lo)) =
      inr (n, a, omega arith, e, g, inr not_lo)

  search_size-Found :
      (fuel limit : ℕ) (data_ : Items) (lo hi : ℕ) (best : Text)
      → lo ≤ hi
      → hi - lo ≤ fuel
      → Found limit data_ lo hi best
          (search_size loads dumps head_share near_end fuel limit data_ lo hi best)
  unfolding search_size
  search_size-Found zero limit data_ lo hi best l h = inl (refl, inl (omega arith))
  search_size-Found (suc fuel) limit data_ lo hi best l h = elim (Bool-cases (ltb lo hi)) [
    | inr stop ↦ rw stop (inl (refl, inl (ground arith)))
    | inl more ↦
        elim (Bool-cases (fits loads dumps head_share near_end limit data_ ((lo + (hi - 1)) / 2))) [
          | inl f ↦
              rw (more, f)
                (Found-above limit data_ lo ((lo + (hi - 1)) / 2) hi best _ (ground arith)
                  (ground arith) f
                  (search_size-Found fuel limit data_ ((lo + (hi - 1)) / 2 + 1) hi _ (ground arith)
                    (ground arith)))
          | inr f ↦
              rw (more, f)
                (Found-below limit data_ lo ((lo + (hi - 1)) / 2) hi best _ (ground arith)
                  (ground arith) f
                  (search_size-Found fuel limit data_ lo ((lo + (hi - 1)) / 2) best (ground arith)
                    (ground arith)))
        ]
  ]

  -- Of a JSON array the cut output shows the first `n` items for a size `n` that fits the limit, where
  -- either all items are shown or one item more would not fit, and it is no longer than the limit; or
  -- it is the text "[]" and no items with the marker do not fit.
  pub truncate_json-Found :
      (data_ : Items) (limit : ℕ)
      → ((truncate_json loads dumps head_share near_end (Json.array data_) limit ≡ lit "[]")
          × (fits loads dumps head_share near_end limit data_ 0 ≡ false))
        ⊎ ((n : ℕ) × (n ≤ count data_)
            × (truncate_json loads dumps head_share near_end (Json.array data_) limit
                ≡ shown loads dumps head_share near_end data_ n)
            × (length (truncate_json loads dumps head_share near_end (Json.array data_) limit)
                ≤ limit)
            × ((n ≡ count data_)
                ⊎ (fits loads dumps head_share near_end limit data_ (n + 1) ≡ false)))
  unfolding truncate_json
  truncate_json-Found data_ limit =
      elim (search_size-Found (suc (suc (count data_))) limit data_ 0 (suc (count data_)) (lit "[]")
        (omega arith) (omega arith)) [
          | inl (e, inl same) ↦ absurd (omega arith)
          | inl (e, inr f) ↦ inl (e, f)
          | inr (n, a, b, e, g, inl top) ↦
              inr (n, omega arith, e, rw e (shown_le limit data_ n g), inl (omega arith))
          | inr (n, a, b, e, g, inr f) ↦
              inr (n, omega arith, e, rw e (shown_le limit data_ n g), inr f)
        ]

  -- If the size to show is at most the text's length and the head's share is less than it, the head-
  -- and-tail cut is a start of the text, the marker and an end of the text; together they have the
  -- size to show, and the marker names exactly the number of characters between them.
  pub head_and_tail_exact :
      (text : Text) (usable : ℕ)
      → usable ≤ length text
      → head_share usable < usable
      → (head skipped tail : Text) × (text ≡ head ++ (skipped ++ tail))
        × (length head ≡ head_share usable)
        × (length head + length tail ≡ usable)
        × (head_and_tail loads dumps head_share near_end text usable
            ≡ head ++ (skipped_marker (length skipped) (length text) ++ tail))
  unfolding head_and_tail last_chars
  head_and_tail_exact text usable u h =
      let skip = length text - head_share usable - (usable - head_share usable) in
      let tail = drop (length text - (usable - head_share usable)) text in
      let shift : drop skip (drop (head_share usable) text) ≡ tail =
        rw (drop-drop (head_share usable) skip text) (ap (λ n. drop n text) (omega arith)) in
      let skipped : length (take skip (drop (head_share usable) text)) ≡ skip =
        rw (length-take, length-drop) (omega arith) in
      let sizes : length tail ≡ usable - head_share usable = rw length-drop (omega arith) in
      let head : length (take (head_share usable) text) ≡ head_share usable =
        rw length-take (omega arith) in
      let last : last_chars (usable - head_share usable) text ≡ tail = ground arith in
      (
        take (head_share usable) text,
        take skip (drop (head_share usable) text),
        tail,
        rw (← shift, take-append-drop, take-append-drop),
        head,
        rw (head, sizes) (omega arith),
        rw (last, skipped),
      )
