-- ===== src/Notify/Message.antt =====
-- What deadline_missed of edfomai-drv.c sends, and for which names it writes past its array.
use mathlib.Core.List.{append_assoc}
use native.Mathlib.Nat.{zero-add}
use native.Mathlib.Numerals.{add-one}
use edfomai.Base.{
  ℕ, zero, suc, ◌+◌, ◌-◌, ◌≤◌, ◌<◌, ◌≡◌, refl, ap, ap₂, ◌∙◌, true, false, none, some, List, [], ◌∷◌,
  ◌++◌, arith, ltb, ◌==◌, NoNul, length, drop, length-append, get_or-append, set-append,
}
use edfomai.Notify.{copy_rname, write_char, missed_message}

-- Moves one element from behind the prefix to its end.
shift : (pre : List ℕ) (c : ℕ) (xs : List ℕ) → (pre ++ c ∷ []) ++ xs ≡ pre ++ c ∷ xs
shift pre c xs = append_assoc pre (c ∷ []) xs

length-shift : (pre : List ℕ) (c : ℕ) → length (pre ++ c ∷ []) ≡ length pre + 1
length-shift pre c = length-append pre (c ∷ [])

-- One round copies a character that is not NUL.
copy_rname-step :
    (n : ℕ) (pre suf : List ℕ) (c x : ℕ) (rest : List ℕ)
    → 0 < c
    → copy_rname (suc n) (length pre) (pre ++ c ∷ suf) (pre ++ x ∷ rest)
      ≡ copy_rname n (length (pre ++ c ∷ [])) ((pre ++ c ∷ []) ++ suf) ((pre ++ c ∷ []) ++ rest)
unfolding copy_rname
copy_rname-step n pre suf c x rest pos =
    let more : (c == 0) ≡ false = ground arith in
    rw (
      copy_rname,
      get_or-append pre (c ∷ suf) 0,
      more,
      get_or-append pre (c ∷ suf) 0,
      set-append pre (x ∷ rest) c,
      shift pre c suf,
      shift pre c rest,
      length-shift pre c,
    )

-- The loop stands behind `pre`, with `suf` of the name to copy, over `rest` of the array.
copy_rname-all :
    (n : ℕ) (pre suf rest : List ℕ)
    → NoNul suf
    → length suf < n
    → n ≡ length rest
    → copy_rname n (length pre) (pre ++ suf) (pre ++ rest)
      ≡ (length pre + length suf, pre ++ (suf ++ drop (length suf) rest))
unfolding copy_rname
copy_rname-all zero pre suf rest text fits room = elim fits [ ]
copy_rname-all (suc n) pre [] rest text fits room =
    rw (copy_rname, get_or-append pre [] 0) (ap (λ k. (k, pre ++ rest)) (omega arith))
copy_rname-all (suc n) pre (c ∷ suf) [] text fits room = absurd (omega arith)
copy_rname-all (suc n) pre (c ∷ suf) (x ∷ rest) text fits room =
    copy_rname-step n pre suf c x rest text.0
    ∙ copy_rname-all n (pre ++ c ∷ []) suf rest text.1 (omega arith) (omega arith)
    ∙ ap₂ (λ k m. (k, m)) (omega (arith, length-shift pre c))
        (shift pre c (suf ++ drop (length suf) rest))

-- With as many characters as rounds the loop runs to its end.
copy_rname-full :
    (n : ℕ) (pre suf rest : List ℕ)
    → NoNul suf
    → n ≤ length suf
    → n ≡ length rest
    → ((copy_rname n (length pre) (pre ++ suf) (pre ++ rest)).0 ≡ length pre + n)
      × (length (copy_rname n (length pre) (pre ++ suf) (pre ++ rest)).1 ≡ length pre + n)
unfolding copy_rname
copy_rname-full zero pre suf rest text fits room =
    (omega arith, omega (arith, length-append pre rest))
copy_rname-full (suc n) pre [] rest text fits room = absurd (omega arith)
copy_rname-full (suc n) pre (c ∷ suf) [] text fits room = absurd (omega arith)
copy_rname-full (suc n) pre (c ∷ suf) (x ∷ rest) text fits room =
    let ih = copy_rname-full n (pre ++ c ∷ []) suf rest text.1 (omega arith) (omega arith) in
    rw (copy_rname-step n pre suf c x rest text.0)
      (omega (arith, ih.0, length-shift pre c), omega (arith, ih.1, length-shift pre c))

-- Behind the copied name stands a byte of the array that takes the NUL.
terminate :
    (name rest : List ℕ)
    → length name < 24
    → length name + length rest ≡ 24
    → write_char (name ++ rest) (length name) 0 ≡ some (name ++ 0 ∷ drop 1 rest)
unfolding write_char
terminate name [] short full = absurd (omega arith)
terminate name (x ∷ rest) short full =
    let within : ltb (length name) (length (name ++ x ∷ rest)) ≡ true =
      ground (arith, length-append name (x ∷ rest)) in
    rw (within, set-append name (x ∷ rest) 0)

drop-drop : (n : ℕ) (xs : List ℕ) → drop 1 (drop n xs) ≡ drop (suc n) xs
drop-drop zero [] = refl
drop-drop zero (x ∷ xs) = refl
drop-drop (suc n) [] = refl
drop-drop (suc n) (x ∷ xs) = drop-drop n xs

length-drop : (n : ℕ) (xs : List ℕ) → length (drop n xs) ≡ length xs - n
length-drop zero xs = omega arith
length-drop (suc n) [] = omega arith
length-drop (suc n) (x ∷ xs) = omega (arith, length-drop n xs)

-- For a name of fewer than 24 characters, none of them NUL, the 24 bytes begin with the name and its NUL, and the
-- bytes behind it are those that the array held before.
pub missed_message-short :
    (name stale : List ℕ)
    → NoNul name
    → length stale ≡ 24
    → length name < 24
    → missed_message name stale ≡ some (name ++ 0 ∷ drop (length name + 1) stale)
unfolding missed_message
missed_message-short name stale text full fits =
    let short : ltb (length name) 24 ≡ true = ground arith in
    rw
      (
        copy_rname-all 24 [] name stale text fits (omega arith),
        zero-add (length name),
        short,
        add-one (length name),
      )
      (terminate name (drop (length name) stale) fits
          (omega (arith, length-drop (length name) stale))
        ∙ ap (λ xs. some (name ++ 0 ∷ xs)) (drop-drop (length name) stale))

-- For a name of 24 characters or more, none of them NUL, the NUL would be written behind the end of
-- the array, which is a fault.
pub missed_message-long :
    (name stale : List ℕ)
    → NoNul name
    → length stale ≡ 24
    → 24 ≤ length name
    → missed_message name stale ≡ none
unfolding missed_message write_char
missed_message-long name stale text full long =
    let run = copy_rname-full 24 [] name stale text long (omega arith) in rw (run.0, run.1)
