-- ===== src/Router/Collect/Pending.antt =====
-- The groups that a request still waits for, and the one response that it sends.
use mathlib.Core.Option.{some-injective}
use pwrapi.Prelude.{
  ℕ, ◌↔◌, zero, suc, ◌+◌, ◌-◌, ◌≤◌, ◌<◌, ◌≡◌, refl, ap, some, List, [], ◌∷◌, ◌++◌, ◌==◌,
  if◌then◌else◌, ltb, length, length-append, get_elem?, set, All, arith,
}
use pwrapi.Events.Responses.{CommRespEvent}
use pwrapi.Router.Collect.{rows}

abbrev Queues : Type 0
Queues = List (List CommRespEvent)

-- How many groups wait for a response, and how many responses they wait for.
unfoldable pub open_groups : List ℕ → Queues → ℕ
open_groups [] qs = 0
open_groups (n ∷ ns) [] = 0
open_groups (n ∷ ns) (q ∷ qs) = (if ltb (length q) n then 1 else 0) + open_groups ns qs

pub awaited : List ℕ → Queues → ℕ
awaited [] qs = 0
awaited (n ∷ ns) [] = 0
awaited (n ∷ ns) (q ∷ qs) = (n - length q) + awaited ns qs

-- A group waits for one more response at least.
pub record IsOpen (ns : List ℕ) (qs : Queues) (g : ℕ) : Type 0 where
  pub size : ℕ
  pub queue : List CommRespEvent
  pub at_size : get_elem? ns g ≡ some size
  pub at_queue : get_elem? qs g ≡ some queue
  pub room : length queue < size

pub open_groups-set :
    (ns : List ℕ) (qs : Queues) (g n : ℕ) (q : List CommRespEvent) (r : CommRespEvent)
    → get_elem? ns g ≡ some n
    → get_elem? qs g ≡ some q
    → length q < n
    → open_groups ns qs
      ≡ open_groups ns (set qs g (q ++ r ∷ [])) + (if length q + 1 == n then 1 else 0)
unfolding open_groups
open_groups-set [] qs g n q r at_n at_q room = ground (arith, at_n)
open_groups-set (m ∷ ns) [] g n q r at_n at_q room = ground (arith, at_q)
open_groups-set (m ∷ ns) (p ∷ qs) zero n q r at_n at_q room =
    rw (some-injective m n at_n, some-injective p q at_q, length-append q (r ∷ [])) (ground arith)
open_groups-set (m ∷ ns) (p ∷ qs) (suc g) n q r at_n at_q room =
    omega (arith, open_groups-set ns qs g n q r at_n at_q room)

pub awaited-set :
    (ns : List ℕ) (qs : Queues) (g n : ℕ) (q : List CommRespEvent) (r : CommRespEvent)
    → get_elem? ns g ≡ some n
    → get_elem? qs g ≡ some q
    → length q < n
    → awaited ns qs ≡ awaited ns (set qs g (q ++ r ∷ [])) + 1
unfolding awaited
awaited-set [] qs g n q r at_n at_q room = ground (arith, at_n)
awaited-set (m ∷ ns) [] g n q r at_n at_q room = ground (arith, at_q)
awaited-set (m ∷ ns) (p ∷ qs) zero n q r at_n at_q room =
    rw (some-injective m n at_n, some-injective p q at_q, length-append q (r ∷ [])) (omega arith)
awaited-set (m ∷ ns) (p ∷ qs) (suc g) n q r at_n at_q room =
    omega (arith, awaited-set ns qs g n q r at_n at_q room)

-- No group waits exactly when no response is awaited.
pub awaited_iff : (ns : List ℕ) (qs : Queues) → (open_groups ns qs ≡ 0) ↔ (awaited ns qs ≡ 0)
unfolding awaited open_groups
awaited_iff [] qs = ground arith
awaited_iff (n ∷ ns) [] = ground arith
awaited_iff (n ∷ ns) (q ∷ qs) = ground (arith, awaited_iff ns qs)

pub open_groups-le : (ns : List ℕ) (qs : Queues) → open_groups ns qs ≤ length ns
unfolding open_groups
open_groups-le [] qs = omega arith
open_groups-le (n ∷ ns) [] = omega arith
open_groups-le (n ∷ ns) (q ∷ qs) = ground (arith, open_groups-le ns qs)

-- The responses that a request waits for at first.
unfoldable pub total_size : List ℕ → ℕ
total_size [] = 0
total_size (n ∷ ns) = n + total_size ns

pub awaited-new : (ns : List ℕ) → (awaited ns (rows ns) ≡ total_size ns)
unfolding awaited total_size
awaited-new [] = refl
awaited-new (n ∷ ns) = omega (arith, awaited-new ns)

pub open_groups-new : (ns : List ℕ) → All (λ n. 0 < n) ns → open_groups ns (rows ns) ≡ length ns
unfolding open_groups
open_groups-new [] h = refl
open_groups-new (n ∷ ns) (pos, h) = ground (arith, open_groups-new ns h)

pub length-rows : (A : Type 0) (ns : List ℕ) → length (rows {A = A} ns) ≡ length ns
length-rows A [] = refl
length-rows A (n ∷ ns) = ap suc (length-rows A ns)

pub All-rows : {A : Type 0} (P : List A → Type 0) (ns : List ℕ) → P [] → All P (rows ns)
All-rows P [] p = tt
All-rows P (n ∷ ns) p = (p, All-rows P ns p)
