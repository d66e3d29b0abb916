-- ===== src/SliceIter.antt =====
-- `core::slice::Iter` of the standard library, by its documentation, as the list of the items that are
-- left. A closure passes its own state on.
pub mod Maps
use mathlib.Core.List.{reverse}
use mathlib.Core.Option
use gulf.Prelude.{
  ℕ, zero, suc, ◌+◌, ◌-◌, Bool, true, false, Option, none, some, List, [], ◌∷◌, length,
}

abbrev pub Closure : Type 0 → Type 0 → Type 0 → Type 0
Closure S A B = S → A → B × S

-- What a search returns: its result, the items that are left, and the state of the closure.
abbrev pub Search : Type 0 → Type 0 → Type 0 → Type 0
Search S A B = B × List A × S

abbrev pub keep : {A : Type 0} → Bool → A → Option A
keep true x = some x
keep false x = none

abbrev stops : Bool → Bool → Option (Unit {0})
stops true true = some tt
stops false false = some tt
stops true false = none
stops false true = none

abbrev found : {R : Type 0} → Option R → Bool → Bool → Bool
found none a b = b
found (some r) a b = a

abbrev index_if : Bool → ℕ → Option ℕ
index_if true n = some n
index_if false n = none

module _ {A : Type 0} where
  unfoldable pub next : List A → Option A × List A
  next [] = (none, [])
  next (x ∷ xs) = (some x, xs)

  unfoldable pub nth : ℕ → List A → Option A × List A
  nth n [] = (none, [])
  nth zero (x ∷ xs) = (some x, xs)
  nth (suc n) (x ∷ xs) = nth n xs

  -- From the back, an operation takes the items in reverse.
  abbrev pub backwards : {B : Type 0} → B × List A → B × List A
  backwards (b, rest) = (b, reverse rest)

  unfoldable pub next_back : List A → Option A × List A
  unfolding next
  next_back xs = backwards (next (reverse xs))

  unfoldable pub nth_back : ℕ → List A → Option A × List A
  unfolding nth
  nth_back n xs = backwards (nth n (reverse xs))

  module _ {S : Type 0} where
    unfoldable pub fold : {B : Type 0} → (S → B → A → B × S) → S → B → List A → B × S
    fold f s b [] = (b, s)
    fold f s b (x ∷ xs) = let (c, t) = f s b x in fold f t c xs

    unfoldable pub rfold : {B : Type 0} → (S → B → A → B × S) → S → B → List A → B × S
    unfolding fold
    rfold f s b xs = fold f s b (reverse xs)

    unfoldable pub for_each : (S → A → S) → S → List A → S
    for_each f s [] = s
    for_each f s (x ∷ xs) = for_each f (f s x) xs

    abbrev pub stop_or :
        {R : Type 0} → Option R → List A → S → Search S A (Option R) → Search S A (Option R)
    stop_or none xs s rest = rest
    stop_or (some r) xs s rest = (some r, xs, s)

    -- The items up to the first that the closure gives a result for are taken.
    unfoldable pub find_map :
        {R : Type 0} → Closure S A (Option R) → S → List A → Search S A (Option R)
    find_map f s [] = (none, [], s)
    find_map f s (x ∷ xs) = let (r, t) = f s x in let rest = find_map f t xs in stop_or r xs t rest

    abbrev pub keeping : Closure S A Bool → Closure S A (Option A)
    keeping p s x = let (b, t) = p s x in (keep b x, t)

    unfoldable pub find : Closure S A Bool → S → List A → Search S A (Option A)
    unfolding find_map
    find p s xs = find_map (keeping p) s xs

    abbrev pub reversed : {B : Type 0} → Search S A B → Search S A B
    reversed (b, rest, s) = (b, reverse rest, s)

    unfoldable pub rfind : Closure S A Bool → S → List A → Search S A (Option A)
    unfolding find
    rfind p s xs = reversed (find p s (reverse xs))

    -- Stops at the first answer that is `b`.
    abbrev pub stopping : Bool → Closure S A Bool → Closure S A (Option (Unit {0}))
    stopping b p s x = let (c, t) = p s x in (stops b c, t)

    abbrev pub answer : {R : Type 0} → Bool → Bool → Search S A (Option R) → Search S A Bool
    answer a b (r, rest, s) = (found r a b, rest, s)

    unfoldable pub all : Closure S A Bool → S → List A → Search S A Bool
    unfolding find_map
    all p s xs = answer false true (find_map (stopping false p) s xs)

    unfoldable pub any : Closure S A Bool → S → List A → Search S A Bool
    unfolding find_map
    any p s xs = answer true false (find_map (stopping true p) s xs)

    -- Counts the items from `n`, by `next`, and gives the count of the first that `p` accepts.
    abbrev pub counting : (ℕ → ℕ) → Closure S A Bool → Closure (S × ℕ) A (Option ℕ)
    counting count p (s, n) x = let (b, t) = p s x in (index_if b n, (t, count n))

  abbrev pub uncounted : {S B : Type 0} → Search (S × ℕ) A B → Search S A B
  uncounted (b, rest, (s, n)) = (b, rest, s)

  module _ {S : Type 0} where
    unfoldable pub position : Closure S A Bool → S → List A → Search S A (Option ℕ)
    unfolding find_map
    position p s xs = uncounted (find_map (counting suc p) (s, 0) xs)

    -- Searches from the back, with indices from the front.
    unfoldable pub rposition : Closure S A Bool → S → List A → Search S A (Option ℕ)
    unfolding find_map
    rposition p s xs =
        reversed (uncounted (find_map (counting (λ n. n - 1) p) (s, length xs - 1) (reverse xs)))
