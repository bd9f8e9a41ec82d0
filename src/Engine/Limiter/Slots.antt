-- ===== src/Engine/Limiter/Slots.antt =====
-- How many workers have a slot of a BMC.
use chamicore.Prelude.{
  ℕ, ◌+◌, ◌-◌, ◌≤◌, ◌<◌, ◌≡◌, refl, ap, ◌∙◌, subst, Bool, true, false, List, [], ◌∷◌, ◌++◌, Option,
  none, some, arith, count_if, count_if-middle, All, is_empty, if◌then◌else◌,
}
use chamicore.Prelude.Int.{pos_part}
use chamicore.Text.{Text, ◌=ₛ◌, =ₛ_iff, =ₛ_refl}
use chamicore.Text.Trim.{trim_space}
use chamicore.Dict.{Dict, lookup, insert, lookup-insert}
use chamicore.Engine.Config.{RuntimeConfig}
use chamicore.Engine.Limiter.{
  Caller, Limiters, put, or_make, wait_for, bmc_limiter, ask_limiter, with_held, LimiterStep, ask,
  admit, give_up, release, LimiterReach, here, next, no_limiters,
}

unfoldable pub uses : Text → Caller → Bool
uses bmc c = c.bmc =ₛ bmc

-- Every caller has the channel that the map has for its BMC.
abbrev IsListed : Dict ℕ → List Caller → Type 0
IsListed m callers = All (λ (c : Caller). lookup c.bmc m ≡ some c.limiter) callers

record IsKept (rc : RuntimeConfig) (l : Limiters) : Type 0 where
  waiting_listed : IsListed l.by_bmc l.waiting
  running_listed : IsListed l.by_bmc l.running
  apart : (b c : Text) (a : ℕ) → lookup b l.by_bmc ≡ some a → lookup c l.by_bmc ≡ some a → b ≡ c
  unknown : (b : Text) → lookup b l.by_bmc ≡ none → count_if (uses b) l.running ≡ 0
  allocated : (b : Text) (a : ℕ) → lookup b l.by_bmc ≡ some a → a < l.next
  sized :
      (b : Text) (a : ℕ)
      → lookup b l.by_bmc ≡ some a
      → (l.channel a).capacity ≡ pos_part rc.per_bmc_concurrency
  counted :
      (b : Text) (a : ℕ)
      → lookup b l.by_bmc ≡ some a
      → (l.channel a).held ≡ count_if (uses b) l.running
  within :
      (b : Text) (a : ℕ)
      → lookup b l.by_bmc ≡ some a
      → (l.channel a).held ≤ pos_part rc.per_bmc_concurrency

All-middle :
    (P : Caller → Type 0) (xs ys : List Caller) (c : Caller)
    → All P (xs ++ c ∷ ys)
    → P c × All P (xs ++ ys)
All-middle P [] ys c h = h
All-middle P (x ∷ xs) ys c (p, h) = let (q, rest) = All-middle P xs ys c h in (q, (p, rest))

insert-IsListed :
    (b : Text) (a : ℕ) (m : Dict ℕ) (cs : List Caller)
    → lookup b m ≡ none
    → IsListed m cs
    → IsListed (insert b a m) cs
insert-IsListed b a m [] new h = tt
insert-IsListed b a m (c ∷ cs) new (p, h) = (
  ground (arith, lookup-insert b c.bmc a m, =ₛ_iff b c.bmc, new, p),
  insert-IsListed b a m cs new h,
)

-- A new channel.
fresh-IsKept :
    (rc : RuntimeConfig) (l : Limiters) (bmc : Text)
    → lookup bmc l.by_bmc ≡ none
    → IsKept rc l
    → IsKept rc (record l {
      by_bmc = insert bmc l.next l.by_bmc;
      channel =
          put l.channel l.next (record { capacity = pos_part rc.per_bmc_concurrency; held = 0 });
      next = l.next + 1;
      waiting = (record { bmc = bmc; limiter = l.next }) ∷ l.waiting;
    })
fresh-IsKept rc l bmc new k = record {
  waiting_listed = (
    ground (arith, lookup-insert bmc bmc l.next l.by_bmc, =ₛ_refl bmc),
    insert-IsListed bmc l.next l.by_bmc l.waiting new k.waiting_listed,
  );
  running_listed = insert-IsListed bmc l.next l.by_bmc l.running new k.running_listed;
  apart = λ b c a e f. ground (
    arith,
    e,
    f,
    lookup-insert bmc b l.next l.by_bmc,
    lookup-insert bmc c l.next l.by_bmc,
    =ₛ_iff bmc b,
    =ₛ_iff bmc c,
    k.apart b c a,
    k.allocated b a,
    k.allocated c a,
  );
  unknown = λ b e. ground (arith, e, lookup-insert bmc b l.next l.by_bmc, k.unknown b);
  allocated = λ b a e. ground (arith, e, lookup-insert bmc b l.next l.by_bmc, k.allocated b a);
  sized =
      λ b a e. ground (arith, e, lookup-insert bmc b l.next l.by_bmc, k.allocated b a, k.sized b a);
  counted = λ b a e. ground (
    arith,
    e,
    lookup-insert bmc b l.next l.by_bmc,
    =ₛ_iff bmc b,
    k.allocated b a,
    k.counted b a,
    k.unknown b,
    new,
  );
  within = λ b a e.
      ground (arith, e, lookup-insert bmc b l.next l.by_bmc, k.allocated b a, k.within b a);
}

admit-IsKept :
    (rc : RuntimeConfig) (l : Limiters) (xs ys : List Caller) (c : Caller)
    → l.waiting ≡ xs ++ c ∷ ys
    → (l.channel c.limiter).held < (l.channel c.limiter).capacity
    → IsKept rc l
    → IsKept rc (record l {
      channel =
          put l.channel c.limiter
            (with_held (l.channel c.limiter) ((l.channel c.limiter).held + 1));
      waiting = xs ++ ys;
      running = c ∷ l.running;
    })
unfolding uses
admit-IsKept rc l xs ys c e room k =
    let (own, rest) =
      All-middle (λ (c : Caller). lookup c.bmc l.by_bmc ≡ some c.limiter) xs ys c
        (subst (IsListed l.by_bmc) e k.waiting_listed) in
    record {
      waiting_listed = rest;
      running_listed = (own, k.running_listed);
      apart = k.apart;
      unknown = λ b f. ground (arith, f, own, =ₛ_iff c.bmc b, k.unknown b);
      allocated = k.allocated;
      sized = λ b a f. ground (arith, f, k.sized b a);
      counted = λ b a f. ground (arith, f, own, =ₛ_iff c.bmc b, k.apart b c.bmc a, k.counted b a);
      within = λ b a f. ground (arith, f, room, k.sized b a, k.within b a);
    }

uses-middle :
    (b : Text) (all xs ys : List Caller) (c : Caller)
    → all ≡ xs ++ c ∷ ys
    → count_if (uses b) all ≡ (if c.bmc =ₛ b then 1 else 0) + count_if (uses b) (xs ++ ys)
unfolding uses
uses-middle b all xs ys c e = ap (count_if (uses b)) e ∙ count_if-middle (uses b) xs c ys

release-IsKept :
    (rc : RuntimeConfig) (l : Limiters) (xs ys : List Caller) (c : Caller)
    → l.running ≡ xs ++ c ∷ ys
    → 0 < (l.channel c.limiter).held
    → IsKept rc l
    → IsKept rc (record l {
      channel =
          put l.channel c.limiter
            (with_held (l.channel c.limiter) ((l.channel c.limiter).held - 1));
      running = xs ++ ys;
    })
release-IsKept rc l xs ys c e filled k =
    let (own, rest) =
      All-middle (λ (c : Caller). lookup c.bmc l.by_bmc ≡ some c.limiter) xs ys c
        (subst (IsListed l.by_bmc) e k.running_listed) in
    record {
      waiting_listed = k.waiting_listed;
      running_listed = rest;
      apart = k.apart;
      unknown = λ b f. ground (arith, f, uses-middle b l.running xs ys c e, k.unknown b);
      allocated = k.allocated;
      sized = λ b a f. ground (arith, f, k.sized b a);
      counted = λ b a f. ground (
        arith,
        f,
        own,
        filled,
        uses-middle b l.running xs ys c e,
        =ₛ_iff c.bmc b,
        k.apart b c.bmc a,
        k.counted b a,
      );
      within = λ b a f. ground (arith, f, k.within b a);
    }

made-IsKept :
    (rc : RuntimeConfig) (l : Limiters) (bmc : Text) (o : Option ℕ)
    → lookup bmc l.by_bmc ≡ o
    → IsKept rc l
    → IsKept rc (wait_for bmc (or_make rc bmc l o))
made-IsKept rc l bmc none e k = fresh-IsKept rc l bmc e k
made-IsKept rc l bmc (some a) e k = record {
  waiting_listed = (e, k.waiting_listed);
  running_listed = k.running_listed;
  apart = k.apart;
  unknown = k.unknown;
  allocated = k.allocated;
  sized = k.sized;
  counted = k.counted;
  within = k.within;
}

ask-IsKept :
    (rc : RuntimeConfig) (l : Limiters) (bmc : Text) (blank : Bool)
    → IsKept rc l
    → IsKept rc (if blank then l else wait_for bmc (bmc_limiter rc bmc l))
unfolding bmc_limiter
ask-IsKept rc l bmc true k = k
ask-IsKept rc l bmc false k = made-IsKept rc l bmc (lookup bmc l.by_bmc) refl k

LimiterStep-IsKept :
    {rc : RuntimeConfig} {l m : Limiters} → LimiterStep rc l m → IsKept rc l → IsKept rc m
unfolding ask_limiter
LimiterStep-IsKept {rc} {l} (ask bmc_id) k =
    ask-IsKept rc l (trim_space bmc_id) (is_empty (trim_space bmc_id)) k
LimiterStep-IsKept {rc} {l} (admit xs ys c e room) k = admit-IsKept rc l xs ys c e room k
LimiterStep-IsKept {l = l} (give_up xs ys c e) k = record {
  waiting_listed =
      (All-middle (λ (d : Caller). lookup d.bmc l.by_bmc ≡ some d.limiter) xs ys c
        (subst (IsListed l.by_bmc) e k.waiting_listed)).1;
  running_listed = k.running_listed;
  apart = k.apart;
  unknown = k.unknown;
  allocated = k.allocated;
  sized = k.sized;
  counted = k.counted;
  within = k.within;
}
LimiterStep-IsKept {rc} {l} (release xs ys c e filled) k = release-IsKept rc l xs ys c e filled k

no_limiters-IsKept : (rc : RuntimeConfig) → IsKept rc no_limiters
unfolding lookup
no_limiters-IsKept rc = record {
  waiting_listed = tt;
  running_listed = tt;
  apart = λ b c a e f. absurd (ground (arith, e));
  unknown = λ b e. refl;
  allocated = λ b a e. absurd (ground (arith, e));
  sized = λ b a e. absurd (ground (arith, e));
  counted = λ b a e. absurd (ground (arith, e));
  within = λ b a e. absurd (ground (arith, e));
}

LimiterReach-IsKept :
    {rc : RuntimeConfig} {l m : Limiters} → IsKept rc l → LimiterReach rc l m → IsKept rc m
LimiterReach-IsKept k here = k
LimiterReach-IsKept k (next r st) = LimiterStep-IsKept st (LimiterReach-IsKept k r)

-- The channel of a BMC, if there is one, holds one value for each worker that has a slot.
abbrev pub IsLimited : RuntimeConfig → Limiters → Text → Option ℕ → Type 0
IsLimited rc l bmc none = count_if (uses bmc) l.running ≡ 0
IsLimited rc l bmc (some a) =
    ((l.channel a).capacity ≡ pos_part rc.per_bmc_concurrency)
    × ((l.channel a).held ≡ count_if (uses bmc) l.running)
    × (count_if (uses bmc) l.running ≤ pos_part rc.per_bmc_concurrency)

kept-IsLimited :
    (rc : RuntimeConfig) (l : Limiters) (bmc : Text) (o : Option ℕ)
    → lookup bmc l.by_bmc ≡ o
    → IsKept rc l
    → IsLimited rc l bmc o
kept-IsLimited rc l bmc none e k = k.unknown bmc e
kept-IsLimited rc l bmc (some a) e k =
    (k.sized bmc a e, k.counted bmc a e, omega (arith, k.counted bmc a e, k.within bmc a e))

-- However the workers interleave, at any time at most the configured number of them have a slot of a
-- BMC. All of them go through the one channel of the BMC, which has that capacity and holds one value
-- for each of them, so that a send waits exactly while they are as many as that; a BMC without a
-- channel is used by none.
pub LimiterReach-IsLimited :
    {rc : RuntimeConfig} {l : Limiters}
    → LimiterReach rc no_limiters l
    → (bmc : Text) → IsLimited rc l bmc (lookup bmc l.by_bmc)
LimiterReach-IsLimited {rc} {l} r bmc =
    kept-IsLimited rc l bmc (lookup bmc l.by_bmc) refl
      (LimiterReach-IsKept (no_limiters-IsKept rc) r)
