-- ===== src/Queue/Listing/Slices.antt =====
-- What `get_job_ids` asks of Redis, and the ids that it gives: a slice of the state's ids.
use bullmq_rs.Prelude.{
  ℕ, suc, ◌+◌, ◌-◌, ◌<◌, ◌≡◌, refl, sym, ap, ◌∙◌, String, Bool, true, false, ◌&&◌, List, [], ◌∷◌,
  ◌++◌, reverse, length, length-append, leb, Bool-cases, inl, inr, if◌then◌else◌, arith,
}
use mathlib.Core.List.{reverse-cons, append-nil}
use bullmq_rs.Prelude.Int.{ℤ, pos, negsuc, FitsI64}
use bullmq_rs.Error.{ok}
use bullmq_rs.Redis.{Value, value, Request, command, Env, pure, ◌>>=◌}
use bullmq_rs.Redis.Ends.{Ends, Ends-pure, Ends-bind, Ends-send_value, Ends-read_texts}
use bullmq_rs.Types.State.{JobState, to_text}
use bullmq_rs.Scripts.{key, int_to_string}
use bullmq_rs.Queue.Listing.{is_list, from_the_end, range_of, get_job_ids}

-- A position is in a range of LRANGE, ZRANGE and ZREVRANGE: `negsuc n` counts from the end.
after_start : ℕ → ℤ → ℕ → Bool
after_start size (pos n) i = leb n i
after_start size (negsuc n) i = leb size (i + n + 1)

before_stop : ℕ → ℤ → ℕ → Bool
before_stop size (pos n) i = leb i n
before_stop size (negsuc n) i = leb (i + n + 1) size

unfoldable pub in_range : ℕ → ℤ → ℤ → ℕ → Bool
unfolding after_start before_stop
in_range size start stop i = after_start size start i && before_stop size stop i

-- The items at the positions that pass a test.
unfoldable pub pick : {A : Type 0} → (ℕ → Bool) → List A → List A
pick test [] = []
pick test (x ∷ xs) = let rest = pick (λ i. test (suc i)) xs in if test 0 then x ∷ rest else rest

-- The items of a range, as Redis documents it.
unfoldable pub range : {A : Type 0} → ℤ → ℤ → List A → List A
unfolding pick in_range
range start stop xs = pick (in_range (length xs) start stop) xs

module _ {A : Type 0} where
  pick_same :
      (test other : ℕ → Bool) (xs : List A)
      → ((i : ℕ) → i < length xs → test i ≡ other i)
      → pick test xs ≡ pick other xs
  unfolding pick
  pick_same test other [] h = refl
  pick_same test other (x ∷ xs) h = rw (h 0 (omega arith)) (
      ap (λ rest. if other 0 then x ∷ rest else rest)
        (pick_same (λ i. test (suc i)) (λ i. other (suc i)) xs (λ i k. h (suc i) (omega arith))))

  pick-append :
      (test : ℕ → Bool) (xs ys : List A)
      → pick test (xs ++ ys) ≡ pick test xs ++ pick (λ i. test (length xs + i)) ys
  unfolding pick
  pick-append test [] ys = pick_same _ _ ys (λ i h. ap test (omega arith))
  pick-append test (x ∷ xs) ys =
      let later =
        pick-append (λ i. test (suc i)) xs ys
        ∙ ap (λ rest. pick (λ i. test (suc i)) xs ++ rest)
            (pick_same (λ i. test (suc (length xs + i))) (λ i. test (suc (length xs) + i)) ys
              (λ i h. ap test (omega arith))) in
      elim (Bool-cases (test 0)) [ inl h ↦ rw h (ap (λ rest. x ∷ rest) later) | inr h ↦ rw h later ]

  length-reverse : (xs : List A) → length (reverse xs) ≡ length xs
  length-reverse [] = refl
  length-reverse (x ∷ xs) =
      ap length (reverse-cons x xs)
      ∙ omega (arith, length-append (reverse xs) (x ∷ []), length-reverse xs)

  reverse-pick :
      (test : ℕ → Bool) (xs : List A)
      → reverse (pick test xs) ≡ pick (λ i. test (length xs - 1 - i)) (reverse xs)
  unfolding pick
  reverse-pick test [] = refl
  reverse-pick test (x ∷ xs) =
      let shifted =
        pick_same (λ i. test (suc (length xs - 1 - i))) (λ i. test (suc (length xs) - 1 - i))
          (reverse xs) (λ i h. ap test (omega (arith, length-reverse xs))) in
      let others = reverse-pick (λ i. test (suc i)) xs ∙ shifted in
      let first : suc (length xs) - 1 - (length (reverse xs) + 0) ≡ 0 =
        omega (arith, length-reverse xs) in
      rw (reverse-cons x xs) (
        sym (
          pick-append (λ i. test (suc (length xs) - 1 - i)) (reverse xs) (x ∷ [])
          ∙ rw first (elim (Bool-cases (test 0)) [
            | inl h ↦ rw h (
                sym (
                  reverse-cons x (pick (λ i. test (suc i)) xs)
                  ∙ ap (λ rest. rest ++ (x ∷ [])) others))
            | inr h ↦ rw h (append-nil _ ∙ sym others)
          ])))

from_the_end-negsuc : (n : ℕ) → from_the_end (negsuc n) ≡ pos n
unfolding from_the_end
from_the_end-negsuc n = ground arith

in_range_mirrored :
    (size i : ℕ) (start stop : ℤ)
    → i < size
    → in_range size (from_the_end stop) (from_the_end start) (size - 1 - i)
      ≡ in_range size start stop i
unfolding in_range from_the_end
in_range_mirrored size i (pos m) (pos n) h = ground arith
in_range_mirrored size i (pos m) (negsuc n) h = rw (from_the_end-negsuc n) (ground arith)
in_range_mirrored size i (negsuc m) (pos n) h = rw (from_the_end-negsuc m) (ground arith)
in_range_mirrored size i (negsuc m) (negsuc n) h =
    rw (from_the_end-negsuc n, from_the_end-negsuc m) (ground arith)

-- A range of the list from its end.
range-reverse :
    {A : Type 0} (start stop : ℤ) (xs : List A)
    → reverse (range (from_the_end stop) (from_the_end start) xs) ≡ range start stop (reverse xs)
unfolding range
range-reverse start stop xs =
    reverse-pick (in_range (length xs) (from_the_end stop) (from_the_end start)) xs
    ∙ pick_same _ _ (reverse xs) λ i h.
      in_range_mirrored (length xs) i start stop (omega (arith, length-reverse xs))
      ∙ ap (λ size. in_range size start stop i) (sym (length-reverse xs))

from_the_end-FitsI64 : (i : ℤ) → FitsI64 i → FitsI64 (from_the_end i)
unfolding from_the_end
from_the_end-FitsI64 (pos n) h = h
from_the_end-FitsI64 (negsuc n) h = rw (from_the_end-negsuc n) h

-- The server answers a command for a range of positions with that range of the ids.
abbrev pub AnswersRange : Env → (prefix name : String) → JobState → String → List String → Type 0
AnswersRange env prefix name state word ids =
    (log : List Request) (start stop : ℤ)
    → FitsI64 start
    → FitsI64 stop
    → (v : Value) × (env.answer log (
          command (
            word ∷ key prefix name (to_text state) ∷ int_to_string start ∷ int_to_string stop ∷ []))
        ≡ value v)
      × (env.to_texts v ≡ ok (range start stop ids))

-- The server holds the ids of a state: of a list from its head on, of a sorted set by ascending scores.
pub record HoldsIds (env : Env) (prefix name : String) (state : JobState) (ids : List String)
    : Type 0 where
  pub list : is_list state ≡ true → AnswersRange env prefix name state "LRANGE" ids
  pub set : is_list state ≡ false → AnswersRange env prefix name state "ZRANGE" ids
  pub set_back :
      is_list state ≡ false → AnswersRange env prefix name state "ZREVRANGE" (reverse ids)

-- The order of the ids: a list grows at its head, so that its oldest id is its last.
abbrev pub in_order : JobState → Bool → List String → List String
in_order state asc ids =
    if is_list state then (if asc then reverse ids else ids) else (if asc then ids else reverse ids)

range_of-AnswersRange :
    (env : Env) (prefix name : String) (state : JobState) (word : String) (ids : List String)
    → AnswersRange env prefix name state word ids
    → (start stop : ℤ) (log : List Request) → FitsI64 start
    → FitsI64 stop
    → Ends env log
        (λ found _. found ≡ range start stop ids)
        (λ _ _. ⊥)
        (range_of prefix name word state start stop)
unfolding range_of
range_of-AnswersRange env prefix name state word ids answers start stop log h k =
    let (v, answer, told) = answers log start stop h k in
    Ends-bind log _ _ (Ends-send_value log _ v answer)
      λ w l e. Ends-read_texts l w _ (ap env.to_texts e ∙ told) refl

module _ (env : Env) (prefix name : String) (state : JobState) (ids : List String)
    (holds : HoldsIds env prefix name state ids) where
  -- Where the server holds the ids of a state and answers for ranges as documented: get_job_ids gives the
  -- slice from `start` to `stop` of these ids, negative positions counted from their end, from the oldest on
  -- where `asc` is set and from the newest on otherwise; for lists, whose oldest id stands last, too.
  pub get_job_ids-slice :
      (start stop : ℤ) (asc : Bool) (log : List Request)
      → FitsI64 start
      → FitsI64 stop
      → Ends env log
          (λ found _. found ≡ range start stop (in_order state asc ids))
          (λ _ _. ⊥)
          (get_job_ids prefix name state start stop asc)
  unfolding get_job_ids
  get_job_ids-slice start stop asc log h k = elim (Bool-cases (is_list state)) [
    | inl list ↦ rw list (from_list (holds.list list) asc)
    | inr set ↦ rw set (from_set (holds.set set) (holds.set_back set) asc)
  ]
    where
      from_list :
          AnswersRange env prefix name state "LRANGE" ids
          → (asc : Bool)
          → Ends env log
              (λ found _. found ≡ range start stop (if asc then reverse ids else ids))
              (λ _ _. ⊥)
              (if asc
                then (range_of prefix name "LRANGE" state (from_the_end stop) (from_the_end start)
                    >>= λ found. pure (reverse found))
                else range_of prefix name "LRANGE" state start stop)
      from_list a true =
          Ends-bind log _ _
            (range_of-AnswersRange env prefix name state "LRANGE" ids a _ _ log
              (from_the_end-FitsI64 stop k) (from_the_end-FitsI64 start h))
            λ found l e. Ends-pure l _ (ap reverse e ∙ range-reverse start stop ids)
      from_list a false =
          range_of-AnswersRange env prefix name state "LRANGE" ids a start stop log h k

      from_set :
          AnswersRange env prefix name state "ZRANGE" ids
          → AnswersRange env prefix name state "ZREVRANGE" (reverse ids)
          → (asc : Bool)
          → Ends env log
              (λ found _. found ≡ range start stop (if asc then ids else reverse ids))
              (λ _ _. ⊥)
              (range_of prefix name (if asc then "ZRANGE" else "ZREVRANGE") state start stop)
      from_set a b true =
          range_of-AnswersRange env prefix name state "ZRANGE" ids a start stop log h k
      from_set a b false =
          range_of-AnswersRange env prefix name state "ZREVRANGE" (reverse ids) b start stop log h k
