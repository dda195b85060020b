-- ===== src/Truncate.antt =====
-- openhands-sdk/openhands/sdk/utils/truncate.py: a text that is too long loses its middle. A text
-- is a list of characters. `saved_notice` is the notice that names the saved file, from the
-- number of characters before the cut; `none` if nothing was to be saved or saving failed.
use codex_latest.Prelude.{
  ℕ, ◌+◌, ◌-◌, ◌/◌, ◌%◌, ◌≤◌, ◌<◌, min, ◌≡◌, ◌∙◌, false, ◌||◌, Option, none, some, List, ◌++◌,
  length, take, drop, leb, nat_eq, ◌==◌, if◌then◌else◌, ℤ, pos, negsuc, length-take, length-drop,
  length-append, Bool-cases, leb→le, inl, inr, arith,
}

module _ {A : Type 0} where
  -- `text[-n:] if n > 0 else ""`
  abbrev pub last : ℕ → List A → List A
  last n text = drop (length text - n) text

  abbrev pub final_notice : List A → Option (List A) → List A
  final_notice truncate_notice none = truncate_notice
  final_notice truncate_notice (some notice) = notice

  -- Steps 5 and 6, for the final notice.
  unfoldable pub around : ℕ → ℕ → List A → List A → List A
  around truncate_after proposed_head notice content =
      let remaining = truncate_after - length notice in
      let head_chars = min proposed_head remaining in
      let tail_chars = remaining - head_chars in
      if leb truncate_after (length notice)
      then take truncate_after notice
      else take head_chars content ++ (notice ++ last tail_chars content)

  -- Steps 2 to 6.
  unfoldable pub truncate : ℕ → List A → (ℕ → Option (List A)) → List A → List A
  truncate truncate_after truncate_notice saved_notice content =
      let available_chars = truncate_after - length truncate_notice in
      let proposed_head = available_chars / 2 + available_chars % 2 in
      if leb truncate_after (length truncate_notice)
      then take truncate_after truncate_notice
      else around truncate_after proposed_head
          (final_notice truncate_notice (saved_notice proposed_head)) content

  unfoldable pub maybe_truncate : List A → Option ℤ → List A → (ℕ → Option (List A)) → List A
  maybe_truncate content none truncate_notice saved_notice = content
  maybe_truncate content (some (negsuc n)) truncate_notice saved_notice = content
  maybe_truncate content (some (pos truncate_after)) truncate_notice saved_notice =
      if truncate_after == 0 || leb (length content) truncate_after
      then content
      else truncate truncate_after truncate_notice saved_notice content

  length-around :
      (n head : ℕ) (notice content : List A)
      → n ≤ length content
      → length (around n head notice content) ≡ n
  unfolding around
  length-around n head notice content le = elim (Bool-cases (leb n (length notice))) [
    | inl y ↦ rw y (omega (arith, length-take n notice, leb→le n _ y))
    | inr more ↦ rw more (
        let h = min head (n - length notice) in
        let t = n - length notice - h in
        let gt : length notice < n = ground arith in
        omega (
          arith,
          length-append (take h content) (notice ++ last t content),
          length-append notice (last t content),
          length-take h content,
          length-drop (length content - t) content,
        ))
  ]

  length-truncate :
      (n : ℕ) (notice : List A) (saved_notice : ℕ → Option (List A)) (content : List A)
      → n ≤ length content
      → length (truncate n notice saved_notice content) ≡ n
  unfolding truncate
  length-truncate n notice saved_notice content le = elim (Bool-cases (leb n (length notice))) [
    | inl y ↦ rw y (omega (arith, length-take n notice, leb→le n _ y))
    | inr more ↦ rw more (
        length-around n _
          (final_notice notice (saved_notice ((n - length notice) / 2 + (n - length notice) % 2)))
          content le)
  ]

  -- A text is cut to the limit, and no shorter: with a limit above 0, the result is as long as the
  -- limit or, where that is less, the text.
  pub length-maybe_truncate :
      (content notice : List A) (saved_notice : ℕ → Option (List A)) (truncate_after : ℕ)
      → 0 < truncate_after
      → length (maybe_truncate content (some (pos truncate_after)) notice saved_notice)
        ≡ min truncate_after (length content)
  unfolding maybe_truncate
  length-maybe_truncate content notice saved_notice n h =
      let nonzero : (n == 0) ≡ false = ground arith in
      elim (Bool-cases (leb (length content) n)) [
        | inl y ↦ rw (nonzero, y) (omega (arith, leb→le _ _ y))
        | inr more ↦
            let gt : n < length content = ground arith in
            rw (nonzero, more)
              (length-truncate n notice saved_notice content (omega arith) ∙ omega arith)
      ]
