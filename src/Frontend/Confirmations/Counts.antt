-- ===== src/Frontend/Confirmations/Counts.antt =====
-- How many questions of a caller are open, and how taking one from the queue counts.
use libre_darwin.Base.{
  ℕ, zero, suc, ◌+◌, ◌≡◌, refl, Option, none, some, List, [], ◌∷◌, ◌++◌, if◌then◌else◌, ◌==◌, arith,
}
use libre_darwin.Protocol.Messages.{ConfirmReply}
use libre_darwin.Frontend.State.{Ask}
use libre_darwin.Frontend.Confirmations.{put_back, take_at}

-- The questions of a caller.
unfoldable pub asked_by : {V : Type 0} → ℕ → List (Ask V) → ℕ
asked_by caller [] = 0
asked_by caller (ask ∷ asks) =
    let rest = asked_by caller asks in if ask.caller == caller then suc rest else rest

unfoldable pub posted_by : {V S : Type 0} → ℕ → List (Ask V × ConfirmReply S) → ℕ
posted_by caller [] = 0
posted_by caller ((ask, _) ∷ posted) =
    let rest = posted_by caller posted in if ask.caller == caller then suc rest else rest

pub asked_by-append :
    {V : Type 0} (caller : ℕ) (xs ys : List (Ask V))
    → asked_by caller (xs ++ ys) ≡ asked_by caller xs + asked_by caller ys
unfolding asked_by
asked_by-append caller [] ys = omega arith
asked_by-append caller (x ∷ xs) ys = ground (arith, asked_by-append caller xs ys)

pub posted_by-append :
    {V S : Type 0} (caller : ℕ) (xs : List (Ask V × ConfirmReply S)) (ask : Ask V)
    (verdict : ConfirmReply S)
    → posted_by caller (xs ++ (ask, verdict) ∷ [])
      ≡ (if ask.caller == caller then suc (posted_by caller xs) else posted_by caller xs)
unfolding posted_by
posted_by-append caller [] ask verdict = ground arith
posted_by-append caller ((a, v) ∷ xs) ask verdict =
    ground (arith, posted_by-append caller xs ask verdict)

-- Taking one question leaves the others.
abbrev pub TakenCount : {V : Type 0} → ℕ → Option (Ask V × List (Ask V)) → ℕ → Type 0
TakenCount caller none n = Unit
TakenCount caller (some (ask, rest)) n =
    n ≡ (if ask.caller == caller then suc (asked_by caller rest) else asked_by caller rest)

TakenCount-put_back :
    {V : Type 0} (caller : ℕ) (x : Ask V) (o : Option (Ask V × List (Ask V))) (n : ℕ)
    → TakenCount caller o n
    → TakenCount caller (put_back x o) (if x.caller == caller then suc n else n)
unfolding asked_by
TakenCount-put_back caller x none n h = tt
TakenCount-put_back caller x (some (ask, rest)) n h = ground arith

pub TakenCount-take_at :
    {V : Type 0} (caller n : ℕ) (xs : List (Ask V))
    → TakenCount caller (take_at n xs) (asked_by caller xs)
unfolding asked_by take_at
TakenCount-take_at caller n [] = tt
TakenCount-take_at caller zero (x ∷ xs) = refl
TakenCount-take_at caller (suc n) (x ∷ xs) =
    TakenCount-put_back caller x _ _ (TakenCount-take_at caller n xs)
