-- ===== src/Router/Args/FromStart.antt =====
-- The router from its start on: the select watches a client's channel exactly as long as the router
-- has the client.
use pwrapi.Prelude.{
  ℕ, suc, ◌≡◌, ◌≢◌, inl, inr, refl, sym, ap, ◌∙◌, subst, Option, some, false, Bool-cases, List, [],
  ◌∷◌, ◌==◌, >>=-eq-some, arith,
}
use mathlib.Core.Option.{some-injective}
use pwrapi.Prelude.Map.{nat_eq, lookup, insert, lookup-insert_at, lookup-insert_else}
use pwrapi.Chars.{Text}
use pwrapi.Channel.Config.{opening}
use pwrapi.Router.Table.{init_route_table}
use pwrapi.Router.Tree.{RtrLink, Link}
use pwrapi.Router.Select.{
  Side, client_side, server_side, router_side, Watch, accepts, events, link, Input, Routing,
  add_channel, work,
}
use pwrapi.Router.Select.Wired.{IsWired, is_client, not_client, added_fresh, work-IsWired}
use pwrapi.Router.Core.{
  Building, get_event_channel, watch_channel, listen_config, server_config, open_pair, open_link,
  open_at, links_from, tree_core, Dim, TorusLink, torus_core, CoreArgs, torus_args, tree_args,
  RouterCore, new_core, listen, router_new,
}
use pwrapi.Router.Args.{Given, Started, init_args, start, routing_of}

abbrev NoClients : List (ℕ × Watch) → Type 0
NoClients m = (k : ℕ) → lookup k m ≢ some (events client_side)

insert-NoClients :
    (m : List (ℕ × Watch)) (ec : ℕ) (w : Watch)
    → is_client w ≡ false
    → NoClients m
    → NoClients (insert ec w m)
insert-NoClients m ec w other free k = elim (Bool-cases (ec == k)) [
  | inl is ↦ not_client (insert ec w m) k w (lookup-insert_at ec k m w is) other
  | inr apart ↦ λ h. free k (sym (lookup-insert_else ec k m w apart) ∙ h)
]

watch_channel-NoClients :
    (config : Text) (w : Watch) (b b' : Building) (ec : ℕ)
    → is_client w ≡ false
    → NoClients b.chan_map
    → watch_channel config w b ≡ some (ec, b')
    → NoClients b'.chan_map
unfolding watch_channel get_event_channel add_channel
watch_channel-NoClients config w b b' ec other free h =
    let ((ec₁, b₁), opened, h₁) = >>=-eq-some (get_event_channel config b) _ h in
    let (o, is, e) = >>=-eq-some (opening config) _ opened in
    let (m, added, e') = >>=-eq-some (add_channel ec₁ w b₁.chan_map) _ h₁ in
    let old : b.chan_map ≡ b₁.chan_map =
      ap (λ (p : ℕ × Building). p.1.chan_map) (some-injective _ _ e) in
    let new : m ≡ b'.chan_map = ap (λ (p : ℕ × Building). p.1.chan_map) (some-injective _ _ e') in
    let put = added_fresh (lookup ec₁ b₁.chan_map) ec₁ w b₁.chan_map m added in
    subst NoClients (put.1 ∙ new)
      (insert-NoClients b₁.chan_map ec₁ w other (subst NoClients old free))

open_pair-NoClients :
    (host port mine : Text) (b b' : Building) (send recv : ℕ)
    → NoClients b.chan_map
    → open_pair host port mine b ≡ some (send, recv, b')
    → NoClients b'.chan_map
unfolding open_pair is_client
open_pair-NoClients host port mine b b' send recv free h =
    let ((ec₁, b₁), sends, h₁) = >>=-eq-some (watch_channel (server_config host port) link b) _ h in
    let ((ec₂, b₂), receives, e) =
      >>=-eq-some (watch_channel (listen_config mine) (accepts router_side) b₁) _ h₁ in
    let last : b₂ ≡ b' = ap (λ (p : ℕ × ℕ × Building). p.2) (some-injective _ _ e) in
    subst (λ (q : Building). NoClients q.chan_map) last
      (watch_channel-NoClients _ (accepts router_side) b₁ b₂ ec₂ refl
        (watch_channel-NoClients _ link b b₁ ec₁ refl free sends) receives)

open_at-NoClients :
    (i : ℕ) (l : Link) (port : Text) (b b' : Building) (r : RtrLink)
    → NoClients b.chan_map
    → open_at i l port b ≡ some (r, b')
    → NoClients b'.chan_map
unfolding open_at open_link
open_at-NoClients i l [] b b' r free h =
    subst (λ (p : RtrLink × Building). NoClients p.1.chan_map) (some-injective _ _ h) free
open_at-NoClients i l (c ∷ port) b b' r free h =
    let ((send, recv, b₁), opened, e) = >>=-eq-some (open_pair _ _ _ b) _ h in
    subst (λ (p : RtrLink × Building). NoClients p.1.chan_map) (some-injective _ _ e)
      (open_pair-NoClients _ _ _ b b₁ send recv free opened)

links_from-NoClients :
    (i : ℕ) (ls : List Link) (b b' : Building) (rs : List RtrLink)
    → NoClients b.chan_map
    → links_from i ls b ≡ some (rs, b')
    → NoClients b'.chan_map
unfolding links_from
links_from-NoClients i [] b b' rs free h =
    subst (λ (p : List RtrLink × Building). NoClients p.1.chan_map) (some-injective _ _ h) free
links_from-NoClients i (l ∷ ls) b b' rs free h =
    let ((r, b₁), opened, h₁) = >>=-eq-some (open_at i l l.my_listen_port b) _ h in
    let ((rs', b₂), more, e) = >>=-eq-some (links_from (suc i) ls b₁) _ h₁ in
    subst (λ (p : List RtrLink × Building). NoClients p.1.chan_map) (some-injective _ _ e)
      (links_from-NoClients (suc i) ls b₁ b₂ rs' (open_at-NoClients i l _ b b₁ r free opened) more)

torus_core-NoClients :
    (ds : List Dim) (b b' : Building) (rs : List TorusLink)
    → NoClients b.chan_map
    → torus_core ds b ≡ some (rs, b')
    → NoClients b'.chan_map
unfolding torus_core
torus_core-NoClients [] b b' rs free h =
    subst (λ (p : List TorusLink × Building). NoClients p.1.chan_map) (some-injective _ _ h) free
torus_core-NoClients (d ∷ ds) b b' rs free h =
    let ((send, recv, b₁), opened, h₁) = >>=-eq-some (open_pair _ _ _ b) _ h in
    let ((rs', b₂), more, e) = >>=-eq-some (torus_core ds b₁) _ h₁ in
    subst (λ (p : List TorusLink × Building). NoClients p.1.chan_map) (some-injective _ _ e)
      (torus_core-NoClients ds b₁ b₂ rs' (open_pair-NoClients _ _ _ b b₁ send recv free opened)
        more)

new_core-NoClients :
    (args : CoreArgs) (b b' : Building) (core : RouterCore)
    → NoClients b.chan_map
    → new_core args b ≡ some (core, b')
    → NoClients b'.chan_map
unfolding new_core tree_core
new_core-NoClients (torus_args ds) b b' core free h =
    let ((rs, b₁), made, e) = >>=-eq-some (torus_core ds b) _ h in
    subst (λ (p : RouterCore × Building). NoClients p.1.chan_map) (some-injective _ _ e)
      (torus_core-NoClients ds b b₁ rs free made)
new_core-NoClients (tree_args ls) b b' core free h =
    let ((rs, b₁), made, e) = >>=-eq-some (links_from 0 ls b) _ h in
    subst (λ (p : RouterCore × Building). NoClients p.1.chan_map) (some-injective _ _ e)
      (links_from-NoClients 0 ls b b₁ rs free made)

listen-NoClients :
    (side : Side) (port : Text) (b b' : Building)
    → NoClients b.chan_map
    → listen side port b ≡ some b'
    → NoClients b'.chan_map
unfolding listen is_client
listen-NoClients side [] b b' free h =
    subst (λ (q : Building). NoClients q.chan_map) (some-injective _ _ h) free
listen-NoClients side (c ∷ port) b b' free h =
    let ((ec, b₁), watched, e) = >>=-eq-some (watch_channel _ (accepts side) b) _ h in
    subst (λ (q : Building). NoClients q.chan_map) (some-injective _ _ e)
      (watch_channel-NoClients _ (accepts side) b b₁ ec refl free watched)

start-NoClients :
    (read_file : Text → Option Text) (given : List Given) (s : Started)
    → start read_file given ≡ some s
    → NoClients s.building.chan_map
unfolding start router_new lookup
start-NoClients read_file given s h =
    let (args, read, h₁) = >>=-eq-some (init_args given) _ h in
    let (core_args, known, h₂) = >>=-eq-some args.core_args _ h₁ in
    let ((core, b), made, h₃) =
      >>=-eq-some (router_new args.client_port args.server_port core_args) _ h₂ in
    let (file, is_file, h₄) = >>=-eq-some (read_file args.route_table) _ h₃ in
    let (table, is_table, e) = >>=-eq-some (init_route_table file) _ h₄ in
    let (b₁, clients, m₁) = >>=-eq-some (listen client_side args.client_port _) _ made in
    let (b₂, servers, m₂) = >>=-eq-some (listen server_side args.server_port b₁) _ m₁ in
    subst (λ (q : Started). NoClients q.building.chan_map) (some-injective _ _ e)
      (new_core-NoClients core_args b₂ b core
        (listen-NoClients server_side _ b₁ b₂
          (listen-NoClients client_side _ _ b₁ (λ k x. absurd (ground (arith, x))) clients) servers)
        m₂)

-- After a router has started, from whatever options, whatever comes on its channels and in whatever
-- order: as long as no assertion fails, the select watches a channel for a client's events exactly
-- if the router has a client on it.
pub work-started :
    (fp_add : ℕ → ℕ → ℕ) (unset : ℕ) (read_file : Text → Option Text) (given : List Given)
    (s : Started) (inputs : List (ℕ × Input)) (r : Routing)
    → start read_file given ≡ some s
    → work fp_add inputs (routing_of unset s) ≡ some r
    → IsWired r
unfolding lookup
work-started fp_add unset read_file given s inputs r started worked =
    let free = start-NoClients read_file given s started in
    work-IsWired fp_add inputs (routing_of unset s) r
      (λ k. (λ h. absurd (free k h), λ h. absurd (ground (arith, h.1)))) worked
