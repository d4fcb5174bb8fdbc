-- ===== src/Channel/Wait.antt =====
-- src/pwr/tcpEventChannel.cc: `TcpChannelSelect::wait`, which chooses a channel among those that
-- can be read. What `::select` leaves in its set is the operating system's: a parameter.
use pwrapi.Prelude.{
  ℕ, zero, suc, ◌+◌, ◌≤◌, ◌<◌, ◌≡◌, inl, inr, refl, sym, ap, ◌∙◌, Option, none, some, Bool, true,
  false, Bool-cases, List, [], ◌∷◌, ◌==◌, ==_iff, ltb, if◌then◌else◌, ◌>>=◌, arith,
}
use pwrapi.Prelude.Map.{nat_eq, lookup, insert, lookup-insert_self, lookup-insert_else}

-- `fdMap[ fd ] = iter->first`; a channel that is not connected has no descriptor.
unfoldable pub put_fd : Option ℕ → ℕ → List (ℕ × ℕ) → List (ℕ × ℕ)
put_fd none ec m = m
put_fd (some fd) ec m = insert fd ec m

-- `fdmax = fd > fdmax ? fd : fdmax`
unfoldable pub larger : Option ℕ → ℕ → ℕ
larger none fdmax = fdmax
larger (some fd) fdmax = if ltb fdmax fd then fd else fdmax

-- The first descriptor in the set, of so many from `i` on.
unfoldable pub first_set : (ℕ → Bool) → ℕ → ℕ → Option ℕ
first_set is_set zero i = none
first_set is_set (suc n) i =
    let rest = first_set is_set n (suc i) in if is_set i then some i else rest

-- The loop over the channels, and what `getFd` gives for each.
unfoldable pub fd_map : {D : Type 0} → (ℕ → Option ℕ) → List (ℕ × D) → List (ℕ × ℕ) → List (ℕ × ℕ)
fd_map fd_of [] m = m
fd_map fd_of ((ec, d) ∷ cs) m = fd_map fd_of cs (put_fd (fd_of ec) ec m)

unfoldable pub fd_max : {D : Type 0} → (ℕ → Option ℕ) → List (ℕ × D) → ℕ → ℕ
fd_max fd_of [] fdmax = fdmax
fd_max fd_of ((ec, d) ∷ cs) fdmax = fd_max fd_of cs (larger (fd_of ec) fdmax)

-- `TcpChannelSelect::wait`, by what `FD_ISSET` says after the `select`. `none` is a failed
-- assertion, or a descriptor of no channel.
unfoldable pub wait : {D : Type 0} → (ℕ → Option ℕ) → (ℕ → Bool) → List (ℕ × D) → Option D
wait fd_of is_set chan_map = do
  i ← first_set is_set (suc (fd_max fd_of chan_map 0)) 0
  chan ← lookup i (fd_map fd_of chan_map [])
  lookup chan chan_map

first_set-least :
    (is_set : ℕ → Bool) (n i fd : ℕ)
    → i ≤ fd
    → fd < i + n
    → is_set fd ≡ true
    → ((j : ℕ) → j < fd → is_set j ≡ false)
    → first_set is_set n i ≡ some fd
unfolding first_set
first_set-least is_set zero i fd from to here least = absurd (omega arith)
first_set-least is_set (suc n) i fd from to here least = elim (Bool-cases (i == fd)) [
  | inl same ↦
      let e : i ≡ fd = (==_iff i fd).0 same in
      let at : is_set i ≡ true = ap is_set e ∙ here in rw (at) (ap some e)
  | inr apart ↦ rw (least i (ground (arith, from, apart))) (
      first_set-least is_set n (suc i) fd (ground (arith, from, apart)) (omega (arith, to)) here
        least)
]

larger_bounds :
    (o : Option ℕ) (fdmax fd : ℕ) → (fdmax ≤ larger o fdmax) × (o ≡ some fd → fd ≤ larger o fdmax)
unfolding larger
larger_bounds none fdmax fd = ground arith
larger_bounds (some k) fdmax fd = ground arith

-- Another channel does not take the descriptor.
put_fd-keeps :
    (fd_of : ℕ → Option ℕ) (ec fd : ℕ)
    → ((k : ℕ) → fd_of k ≡ some fd → k ≡ ec)
    → (k : ℕ) (o : Option ℕ) (m : List (ℕ × ℕ)) → fd_of k ≡ o
    → lookup fd m ≡ some ec
    → lookup fd (put_fd o k m) ≡ some ec
unfolding put_fd
put_fd-keeps fd_of ec fd only k none m e at = at
put_fd-keeps fd_of ec fd only k (some i) m e at = elim (Bool-cases (i == fd)) [
  | inl same ↦
      let e' : i ≡ fd = (==_iff i fd).0 same in
      let k_is : k ≡ ec = only k (e ∙ ap some e') in rw (e', k_is) (lookup-insert_self fd ec m)
  | inr apart ↦ lookup-insert_else i fd m k apart ∙ at
]

module _ {D : Type 0} (fd_of : ℕ → Option ℕ) where
  fd_max-above : (cs : List (ℕ × D)) (fdmax : ℕ) → fdmax ≤ fd_max fd_of cs fdmax
  unfolding fd_max
  fd_max-above [] fdmax = omega arith
  fd_max-above ((ec, d) ∷ cs) fdmax =
      omega
        (arith, fd_max-above cs (larger (fd_of ec) fdmax), (larger_bounds (fd_of ec) fdmax fdmax).0)

  -- The maximum is that of the watched channels.
  fd_max-covers :
      (cs : List (ℕ × D)) (fdmax ec fd : ℕ) (d : D)
      → lookup ec cs ≡ some d
      → fd_of ec ≡ some fd
      → fd ≤ fd_max fd_of cs fdmax
  unfolding fd_max lookup
  fd_max-covers [] fdmax ec fd d at is = absurd (ground (arith, at))
  fd_max-covers ((k, v) ∷ cs) fdmax ec fd d at is = elim (Bool-cases (k == ec)) [
    | inl same ↦
        let e : k ≡ ec = (==_iff k ec).0 same in
        omega (
          arith,
          fd_max-above cs (larger (fd_of k) fdmax),
          (larger_bounds (fd_of k) fdmax fd).1 (ap fd_of e ∙ is),
        )
    | inr apart ↦ fd_max-covers cs (larger (fd_of k) fdmax) ec fd d (sym (rw (apart) refl) ∙ at) is
  ]

  module _ (ec fd : ℕ) (is : fd_of ec ≡ some fd) (only : (k : ℕ) → fd_of k ≡ some fd → k ≡ ec) where
    fd_map-keeps :
        (cs : List (ℕ × D)) (m : List (ℕ × ℕ))
        → lookup fd m ≡ some ec
        → lookup fd (fd_map fd_of cs m) ≡ some ec
    unfolding fd_map
    fd_map-keeps [] m at = at
    fd_map-keeps ((k, v) ∷ cs) m at =
        fd_map-keeps cs (put_fd (fd_of k) k m) (put_fd-keeps fd_of ec fd only k (fd_of k) m refl at)

    -- The descriptor leads back to its channel.
    fd_map-finds :
        (cs : List (ℕ × D)) (m : List (ℕ × ℕ)) (d : D)
        → lookup ec cs ≡ some d
        → lookup fd (fd_map fd_of cs m) ≡ some ec
    unfolding fd_map lookup put_fd
    fd_map-finds [] m d at = absurd (ground (arith, at))
    fd_map-finds ((k, v) ∷ cs) m d at = elim (Bool-cases (k == ec)) [
      | inl same ↦
          let e : k ≡ ec = (==_iff k ec).0 same in
          let own : fd_of k ≡ some fd = ap fd_of e ∙ is in
          fd_map-keeps cs (put_fd (fd_of k) k m) (rw (own, e) (lookup-insert_self fd ec m))
      | inr apart ↦ fd_map-finds cs (put_fd (fd_of k) k m) d (sym (rw (apart) refl) ∙ at)
    ]

-- If a watched channel is the only one with its descriptor, and this is the least in the set after
-- the `select`, `wait` returns the data of that channel.
pub wait-least :
    {D : Type 0} (fd_of : ℕ → Option ℕ) (is_set : ℕ → Bool) (chan_map : List (ℕ × D)) (ec fd : ℕ)
    (d : D)
    → lookup ec chan_map ≡ some d
    → fd_of ec ≡ some fd
    → ((k : ℕ) → fd_of k ≡ some fd → k ≡ ec)
    → is_set fd ≡ true
    → ((j : ℕ) → j < fd → is_set j ≡ false)
    → wait fd_of is_set chan_map ≡ some d
unfolding wait
wait-least fd_of is_set chan_map ec fd d at is only here least =
    let first : first_set is_set (suc (fd_max fd_of chan_map 0)) 0 ≡ some fd =
      first_set-least is_set (suc (fd_max fd_of chan_map 0)) 0 fd (omega arith)
        (omega (arith, fd_max-covers fd_of chan_map 0 ec fd d at is)) here least in
    rw (first, fd_map-finds fd_of ec fd is only chan_map [] d at) at
