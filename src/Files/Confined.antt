-- ===== src/Files/Confined.antt =====
-- tools/filesystem.py: which files a write or an edit can change.
use lucyd.Base.{
  Text, ◌≡◌, refl, ap, subst, Bool, true, false, Option, none, some, List, [], ◌∷◌, text_eq,
  text_eq_iff, contains, is_empty, ltb, Bool-cases, ◌⊎◌, inl, inr, arith, if◌then◌else◌,
}
use lucyd.Files.{
  Entry, directory, binary, file, Disk, entry_at, put_entry, Access, is_allowed, check_resolved,
  check_path, is_locked, is_directory, write_text, write_checked, tool_write, count_text,
  universal_newlines, edit_content, edit_entry, edit_checked, tool_edit, Call, write, edit, path_of,
  run_call,
}

entry_at-put_entry_other :
    (p q : Text) (e : Entry) (es : List (Text × Entry))
    → text_eq p q ≡ false
    → entry_at q (put_entry p e es) ≡ entry_at q es
unfolding entry_at put_entry
entry_at-put_entry_other p q e [] h = rw h
entry_at-put_entry_other p q e ((r, f) ∷ es) h =
    ground (
      arith,
      entry_at-put_entry_other p q e es h,
      text_eq_iff r p,
      text_eq_iff r q,
      text_eq_iff p q,
    )

inl_of : Text → Text ⊎ Text
inl_of x = inl x

left_same : {x y : Text} → inl_of x ≡ inl_of y → x ≡ y
unfolding inl_of
left_same h = cc

passed :
    (b c : Bool) (x y r resolved : Text)
    → (if b then inr x else if c then inl r else inr y) ≡ inl resolved
    → (r ≡ resolved) × (c ≡ true)
unfolding inl_of
passed true c x y r resolved h = cc
passed false true x y r resolved h = (left_same h, refl)
passed false false x y r resolved h = cc

module _ (a : Access) where
  -- What a call leaves: only the resolved path can hold something else.
  abbrev Only : Text → Disk → Option (Disk × Text) → Type 0
  Only resolved d none = Unit
  Only resolved d (some (d', reply)) =
      (q : Text) → (entry_at q d'.entries ≡ entry_at q d.entries) ⊎ (resolved ≡ q)

  write_text-Only :
      (path resolved content done : Text) (d : Disk)
      → Only resolved d (write_text a path resolved content done d)
  unfolding write_text
  write_text-Only path resolved content done d =
      elim (Bool-cases (is_directory a (entry_at resolved d.entries))) [
        | inl dir ↦ rw dir tt
        | inr plain ↦ elim (Bool-cases (a.writable resolved)) [
          | inl may ↦
              rw (plain, may)
                (λ q. elim (Bool-cases (text_eq resolved q)) [
                  | inl same ↦ inr ((text_eq_iff resolved q).0 same)
                  | inr other ↦
                      inl (entry_at-put_entry_other resolved q (file content) d.entries other)
                ])
          | inr not_allowed ↦ rw (plain, not_allowed) (λ q. inl refl)
        ]
      ]

  edit_content-Only :
      (path resolved old new : Text) (replace_all : Bool) (content : Text) (d : Disk)
      → Only resolved d (edit_content a path resolved old new replace_all content d)
  unfolding edit_content
  edit_content-Only path resolved old new replace_all content d =
      elim (Bool-cases (contains content old)) [
        | inr missing ↦ rw missing (λ q. inl refl)
        | inl found ↦ elim (Bool-cases replace_all) [
          | inl every ↦ rw (found, every) (write_text-Only path resolved _ _ d)
          | inr one ↦ elim (Bool-cases (ltb 1 (count_text old content))) [
            | inl several ↦ rw (found, one, several) (λ q. inl refl)
            | inr single ↦ rw (found, one, single) (write_text-Only path resolved _ _ d)
          ]
        ]
      ]

  edit_entry-Only :
      (path resolved old new : Text) (replace_all : Bool) (d : Disk) (o : Option Entry)
      → Only resolved d (edit_entry a path resolved old new replace_all d o)
  unfolding edit_entry
  edit_entry-Only path resolved old new replace_all d none = λ q. inl refl
  edit_entry-Only path resolved old new replace_all d (some directory) = tt
  edit_entry-Only path resolved old new replace_all d (some binary) =
      elim (Bool-cases (a.readable resolved)) [
        | inl may ↦ rw may (λ q. inl refl)
        | inr denied ↦ rw denied tt
      ]
  edit_entry-Only path resolved old new replace_all d (some (file content)) =
      elim (Bool-cases (a.readable resolved)) [
        | inl may ↦
            rw may
              (edit_content-Only path resolved old new replace_all (universal_newlines content) d)
        | inr denied ↦ rw denied tt
      ]

  check_resolved-inl :
      (path resolved : Text) (o : Option Text)
      → check_resolved a path o ≡ inl resolved
      → (o ≡ some resolved) × (is_allowed a resolved ≡ true)
  unfolding check_resolved
  check_resolved-inl path resolved none h = cc
  check_resolved-inl path resolved (some r) h =
      let (same, under) = passed (is_empty a.allow) (is_allowed a r) _ _ r resolved h in
      (ap some same, subst (λ (t : Text). is_allowed a t ≡ true) same under)

  -- What is granted to a call: a path whose name is not locked and that resolves under an allowed one.
  abbrev pub Granted : Text → Text → Type 0
  Granted path q = (is_locked a path ≡ false) × (a.resolve path ≡ some q) × (is_allowed a q ≡ true)

  abbrev pub Confined : Text → Disk → Option (Disk × Text) → Type 0
  Confined path d none = Unit
  Confined path d (some (d', reply)) =
      (q : Text) → (entry_at q d'.entries ≡ entry_at q d.entries) ⊎ Granted path q

  Confined-of_Only :
      (path resolved : Text) (d : Disk) (o : Option (Disk × Text))
      → Granted path resolved
      → Only resolved d o
      → Confined path d o
  Confined-of_Only path resolved d none g h = tt
  Confined-of_Only path resolved d (some (d', reply)) g h =
      λ q. elim (h q) [ inl same ↦ inl same | inr here ↦ inr (subst (Granted path) here g) ]

  write_checked-Confined :
      (path content : Text) (d : Disk) (o : Text ⊎ Text)
      → is_locked a path ≡ false
      → check_path a path ≡ o
      → Confined path d (write_checked a path content d o)
  unfolding write_checked check_path
  write_checked-Confined path content d (inr err) free h = λ q. inl refl
  write_checked-Confined path content d (inl resolved) free h =
      Confined-of_Only path resolved d _
        (let (resolves, under) = check_resolved-inl path resolved (a.resolve path) h in
          (free, resolves, under))
        (write_text-Only path resolved content _ d)

  edit_checked-Confined :
      (path old new : Text) (replace_all : Bool) (d : Disk) (o : Text ⊎ Text)
      → is_locked a path ≡ false
      → check_path a path ≡ o
      → Confined path d (edit_checked a path old new replace_all d o)
  unfolding edit_checked check_path
  edit_checked-Confined path old new replace_all d (inr err) free h = λ q. inl refl
  edit_checked-Confined path old new replace_all d (inl resolved) free h =
      Confined-of_Only path resolved d _
        (let (resolves, under) = check_resolved-inl path resolved (a.resolve path) h in
          (free, resolves, under))
        (edit_entry-Only path resolved old new replace_all d _)

  -- Of the files, a write or an edit that returns changes at most the one that its path resolves to, and
  -- that one only if the path's name is not locked and what it resolves to is under an allowed path.
  pub run_call-Confined : (c : Call) (d : Disk) → Confined (path_of c) d (run_call a c d)
  unfolding run_call tool_write tool_edit path_of
  run_call-Confined (write path content) d = elim (Bool-cases (is_locked a path)) [
    | inl locked ↦ rw locked (λ q. inl refl)
    | inr free ↦ rw free (write_checked-Confined path content d (check_path a path) free refl)
  ]
  run_call-Confined (edit path old new replace_all) d = elim (Bool-cases (is_locked a path)) [
    | inl locked ↦ rw locked (λ q. inl refl)
    | inr free ↦
        rw free (edit_checked-Confined path old new replace_all d (check_path a path) free refl)
  ]
