-- ===== src/Local/Disk/Ended.antt =====
-- What the writes of `MNNSaver::SaveASync` leave when they have ended (src/MNNSaver.cpp).
use async_iomanager.Common.{
  ℕ, ◌+◌, ◌≤◌, Bool-cases, true, false, some, List, [], ◌∷◌, ◌++◌, Bytes, length, drop, take, subst,
  take_all, drop_all, append-nil, if◌then◌else◌, ◌≡◌, ◌⊎◌, inl, inr, refl, sym, ap, ◌∙◌, arith,
}
use async_iomanager.Manager.Maps.{same, same_iff}
use async_iomanager.Local.Sync.{Disk}
use async_iomanager.Local.Disk.{end_write, Ends, none_ended, one_ended, writes_to, Agree}

module _ (path content : Bytes) where
  writes_to-middle :
      (before after : List (Bytes × Bytes)) (w : Bytes × Bytes)
      → writes_to path (before ++ w ∷ after)
        ≡ (if same path w.0 then 1 else 0) + writes_to path (before ++ after)
  writes_to-middle [] after w = refl
  writes_to-middle (v ∷ before) after w = omega (arith, writes_to-middle before after w)

  Agree-middle :
      (before after : List (Bytes × Bytes)) (w : Bytes × Bytes)
      → Agree path content (before ++ w ∷ after)
      → (same path w.0 ≡ true → w.1 ≡ content) × Agree path content (before ++ after)
  Agree-middle [] after w a = a
  Agree-middle (v ∷ before) after w (b, a) =
      let (c, rest) = Agree-middle before after w a in (c, (b, rest))

  -- The file has the content, or is empty with a write to come.
  abbrev pub HasOrAwaits : List (Bytes × Bytes) → Disk → Type 0
  HasOrAwaits ws d =
      (d.contents path ≡ some content) ⊎ ((d.contents path ≡ some []) × (1 ≤ writes_to path ws))

  -- A write over the file itself, or over an empty file.
  overwritten :
      (n : ℕ) (old : Bytes)
      → length content ≤ n
      → (old ≡ content) ⊎ (old ≡ [])
      → take n content ++ drop (length (take n content)) old ≡ content
  overwritten n old full (inl same_content) =
      rw (same_content, take_all n content full, drop_all (length content) content (omega arith))
        (append-nil content)
  overwritten n old full (inr empty) =
      rw (empty, take_all n content full, drop_all {A = ℕ} (length content) [] (omega arith))
        (append-nil content)

  end_write-hit :
      (d : Disk) (w : Bytes × Bytes) (n : ℕ) (old : Bytes)
      → same path w.0 ≡ true
      → d.contents path ≡ some old
      → (end_write w n d).contents path ≡ some (take n w.1 ++ drop (length (take n w.1)) old)
  unfolding end_write
  end_write-hit d (filename, c) n old hit e =
      let at : d.contents filename ≡ some old =
        ap d.contents (sym ((same_iff path filename).0 hit)) ∙ e in
      ground (arith, at, hit)

  end_write-full :
      (d : Disk) (w : Bytes × Bytes) (n : ℕ)
      → w.1 ≡ content
      → length w.1 ≤ n
      → same path w.0 ≡ true
      → (d.contents path ≡ some content) ⊎ (d.contents path ≡ some [])
      → (end_write w n d).contents path ≡ some content
  end_write-full d w n e full hit h =
      let fits : length content ≤ n = subst (λ (c : Bytes). length c ≤ n) e full in
      elim h [
        | inl has ↦
            end_write-hit d w n content hit has
            ∙ rw e (ap some (overwritten n content fits (inl refl)))
        | inr empty ↦
            end_write-hit d w n [] hit empty ∙ rw e (ap some (overwritten n [] fits (inr refl)))
      ]

  old_content :
      (d : Disk) (ws : List (Bytes × Bytes))
      → HasOrAwaits ws d
      → (d.contents path ≡ some content) ⊎ (d.contents path ≡ some [])
  old_content d ws (inl e) = inl e
  old_content d ws (inr (e, left)) = inr e

  end_write-miss :
      (d : Disk) (w : Bytes × Bytes) (n : ℕ)
      → same path w.0 ≡ false
      → (end_write w n d).contents path ≡ d.contents path
  unfolding end_write
  end_write-miss d (filename, c) n miss = ground arith

  end_write-HasOrAwaits :
      (d : Disk) (before after : List (Bytes × Bytes)) (w : Bytes × Bytes) (n : ℕ)
      → (same path w.0 ≡ true → w.1 ≡ content)
      → length w.1 ≤ n
      → HasOrAwaits (before ++ w ∷ after) d
      → HasOrAwaits (before ++ after) (end_write w n d)
  end_write-HasOrAwaits d before after w n agree full h = elim (Bool-cases (same path w.0)) [
    | inl hit ↦
        inl (end_write-full d w n (agree hit) full hit (old_content d (before ++ w ∷ after) h))
    | inr miss ↦
        rw (end_write-miss d w n miss) (ground (arith, h, writes_to-middle before after w, miss))
  ]

  pub Ends-HasOrAwaits :
      (ws : List (Bytes × Bytes)) (disk : Disk) (left : List (Bytes × Bytes)) (d : Disk)
      → Ends ws disk left d
      → Agree path content ws
      → HasOrAwaits ws disk
      → Agree path content left × HasOrAwaits left d
  Ends-HasOrAwaits ws disk left d none_ended a h = (a, h)
  Ends-HasOrAwaits ws disk left d' (one_ended {d = d} before after w n r full) a h =
      let (b, k) = Ends-HasOrAwaits ws disk (before ++ w ∷ after) d r a h in
      let (agree, rest) = Agree-middle before after w b in
      (rest, end_write-HasOrAwaits d before after w n agree full k)
