-- ===== src/FileHistory/Undo.antt =====
-- An edit that is undone gives back what it replaced.
use codex_latest.Prelude.{
  ℕ, zero, suc, ◌+◌, ◌-◌, ◌≤◌, ◌<◌, ◌≡◌, refl, sym, ap, ◌∙◌, subst, ◌⊎◌, inl, inr, String, Option,
  none, some, List, [], ◌∷◌, ◌++◌, length, length-append, drop, arith,
}
use codex_latest.FileCache.{Cache}
use codex_latest.FileHistory.{Key, Value, add_history, pop_last_history}
use codex_latest.FileHistory.Stack.{AreHistory, add_history-AreHistory, pop_last_history-AreHistory}

drop-append :
    (n : ℕ) (xs : List String) (x : String)
    → n ≤ length xs
    → drop n (xs ++ x ∷ []) ≡ drop n xs ++ x ∷ []
drop-append zero xs x l = refl
drop-append (suc n) [] x l = absurd (omega (arith, l))
drop-append (suc n) (y ∷ xs) x l = drop-append n xs x (omega (arith, l))

last_injective :
    (xs ys : List String) (x y : String) → xs ++ x ∷ [] ≡ ys ++ y ∷ [] → (x ≡ y) × (xs ≡ ys)
last_injective [] [] x y p = (cc p, refl)
last_injective [] (b ∷ []) x y p = absurd (cc p)
last_injective [] (b ∷ c ∷ ys) x y p = absurd (cc p)
last_injective (a ∷ []) [] x y p = absurd (cc p)
last_injective (a ∷ c ∷ xs) [] x y p = absurd (cc p)
last_injective (a ∷ xs) (b ∷ ys) x y p =
    let q : xs ++ x ∷ [] ≡ ys ++ y ∷ [] = cc p in
    let r : a ≡ b = cc p in let (s, t) = last_injective xs ys x y q in (s, λ i. r i ∷ t i)

module _ (size_of : Key → Value → ℕ) (path : String) where
  of_last :
      (xs : List String) (x : String) (r : Option String) (c : Cache Key Value)
      → ((xs ++ x ∷ [] ≡ []) × (r ≡ none) × AreHistory path c [])
        ⊎ ((ys : List String) × (y : String) × (xs ++ x ∷ [] ≡ ys ++ y ∷ [])
            × (r ≡ some y)
            × AreHistory path c ys)
      → (r ≡ some x) × AreHistory path c xs
  of_last [] x r c (inl (p, q, h)) = absurd (cc p)
  of_last (a ∷ xs) x r c (inl (p, q, h)) = absurd (cc p)
  of_last xs x r c (inr (ys, y, p, q, h)) =
      let (s, t) = last_injective xs ys x y p in
      (q ∙ ap some (sym s), subst (AreHistory path c) (sym t) h)

  -- With room for one content or more, popping after adding returns the content that was added
  -- and leaves the contents from before, but for those that adding it pushed out.
  pub pop_last_history-add_history :
      (max : ℕ) (x : String) (c : Cache Key Value) (xs : List String)
      → 0 < max
      → AreHistory path c xs
      → let r = pop_last_history size_of path (add_history size_of max path x c) in
        (r.0 ≡ some x) × AreHistory path r.1 (drop ((length xs + 1) - max) xs)
  pop_last_history-add_history max x c xs l h =
      let d = add_history size_of max path x c in
      let n = (length xs + 1) - max in
      let size : length (xs ++ x ∷ []) - max ≡ n = ap (λ k. k - max) (length-append xs (x ∷ [])) in
      let added : AreHistory path d (drop n xs ++ x ∷ []) =
        subst (AreHistory path d)
          (ap (λ k. drop k (xs ++ x ∷ [])) size ∙ drop-append n xs x (omega (arith, l)))
          (add_history-AreHistory size_of path max x c xs h) in
      let r = pop_last_history size_of path d in
      of_last (drop n xs) x r.0 r.1
        (pop_last_history-AreHistory size_of path d (drop n xs ++ x ∷ []) added)
