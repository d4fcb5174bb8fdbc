-- ===== src/Router/Tree/Route.antt =====
-- Which link an event for a router takes.
use pwrapi.Prelude.{ℕ, ◌≡◌, refl, Option, true, false, List, [], ◌∷◌, All, ◌++◌, arith}
use pwrapi.Router.Tree.{RtrLink, covers, down_channel, get_channel}

-- No router is below two links.
unfoldable pub Disjoint : List RtrLink → Type 0
Disjoint [] = Unit
Disjoint (l ∷ ls) = All (λ k. (id : ℕ) → covers l id ≡ true → covers k id ≡ false) ls × Disjoint ls

down_channel-skip :
    (before after : List RtrLink) (l : RtrLink) (id : ℕ) (up : Option ℕ)
    → Disjoint (before ++ l ∷ after)
    → covers l id ≡ true
    → down_channel (before ++ l ∷ after) id up ≡ l.send
unfolding down_channel Disjoint
down_channel-skip [] after l id up d c = rw (c) refl
down_channel-skip (k ∷ before) after l id up (apart, d) c =
    rw (k_no) (down_channel-skip before after l id up d c)
  where
    at_l :
        (ls : List RtrLink)
        → All (λ m. (j : ℕ) → covers k j ≡ true → covers m j ≡ false) (ls ++ l ∷ after)
        → covers k id ≡ true
        → covers l id ≡ false
    at_l [] (h, hs) e = h id e
    at_l (m ∷ ls) (h, hs) e = at_l ls hs e

    k_no : covers k id ≡ false
    k_no = ground (arith, at_l before apart, c)

down_channel-none :
    (down : List RtrLink) (id : ℕ) (up : Option ℕ)
    → All (λ l. covers l id ≡ false) down
    → down_channel down id up ≡ up
unfolding down_channel
down_channel-none [] id up h = refl
down_channel-none (l ∷ ls) id up (e, h) = rw (e) (down_channel-none ls id up h)

-- If no router is below two links, an event for a router below a link takes that link, wherever the
-- link stands.
pub get_channel-below :
    (up l : RtrLink) (before after : List RtrLink) (id : ℕ)
    → Disjoint (before ++ l ∷ after)
    → covers l id ≡ true
    → get_channel (up ∷ before ++ l ∷ after) id ≡ l.send
unfolding get_channel
get_channel-below up l before after id d c = down_channel-skip before after l id up.send d c

-- If a router is below no link down, an event for it takes the link up.
pub get_channel-up :
    (up : RtrLink) (down : List RtrLink) (id : ℕ)
    → All (λ l. covers l id ≡ false) down
    → get_channel (up ∷ down) id ≡ up.send
unfolding get_channel
get_channel-up up down id h = down_channel-none down id up.send h
