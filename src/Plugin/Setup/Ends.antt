-- ===== src/Plugin/Setup/Ends.antt =====
-- The reading of a Corefile ends.
use valon.Prelude.{
  ℕ, zero, suc, ◌≤◌, ◌<◌, ◌≢◌, inl, inr, Bool, true, false, Option, some, List, [], ◌∷◌, Bytes,
  codes, ok, err, if◌then◌else◌, ◌≟◌, arith, Bool-cases, Option-cases,
}
use valon.Plugin.Setup.{
  Controller, IsController, Settings, arg_err, out_of_fuel, invalid_duration, unknown_property,
  Parsed, with_endpoints, with_value, with_duration, directive, and_then, parse_block, with_zone,
  parse_corefile, default_settings,
}

module _ {D V : Type 0} (c : Controller D) (laws : IsController c)
    (parse_duration : Bytes → Option V) where
  -- not stopped by the fuel, and with no more tokens left than so many
  abbrev Within : ℕ → Parsed c parse_duration → Type 0
  Within n (ok (v, d)) = laws.unread d ≤ n
  Within n (err out_of_fuel) = ⊥
  Within n (err x) = Unit

  Within-if :
      (n : ℕ) (b : Bool) (x y : Parsed c parse_duration)
      → Within n x
      → Within n y
      → Within n (if b then x else y)
  Within-if n true x y hx hy = hx
  Within-if n false x y hx hy = hy

  Within-with_endpoints :
      (n : ℕ) (v : Settings V) (r : List Bytes × D)
      → laws.unread r.1 ≤ n
      → Within n (with_endpoints c parse_duration v r)
  unfolding with_endpoints
  Within-with_endpoints n v ([], d) h = tt
  Within-with_endpoints n v (arg ∷ args, d) h = h

  Within-with_value :
      (n : ℕ) (set : Bytes → Settings V) (r : Bool × D)
      → laws.unread r.1 ≤ n
      → Within n (with_value c parse_duration set r)
  unfolding with_value
  Within-with_value n set (false, d) h = tt
  Within-with_value n set (true, d) h = h

  Within-with_duration :
      (n : ℕ) (name : Bytes) (set : V → Settings V) (r : Bool × D)
      → laws.unread r.1 ≤ n
      → Within n (with_duration c parse_duration name set r)
  unfolding with_duration
  Within-with_duration n name set (false, d) h = tt
  Within-with_duration n name set (true, d) h = elim (Option-cases (parse_duration (c.val d))) [
    | inl bad ↦ rw (with_duration, bad) tt
    | inr (duration, good) ↦ rw (with_duration, good) h
  ]

  Within-directive :
      (d : D) (v : Settings V) → Within (laws.unread d) (directive c parse_duration d v)
  unfolding directive
  Within-directive d v =
      let arg = laws.next_arg_reads d in
      Within-if (laws.unread d) (c.val d ≟ codes "etcd_endpoints") _ _
        (Within-with_endpoints (laws.unread d) v (c.remaining_args d) (laws.remaining_args_reads d))
        (Within-if (laws.unread d) (c.val d ≟ codes "wg_interface") _ _
          (Within-with_value (laws.unread d) (λ value. record v { wg_interface = value })
            (c.next_arg d) arg)
          (Within-if (laws.unread d) (c.val d ≟ codes "ddns_listen") _ _
            (Within-with_value (laws.unread d) (λ value. record v { ddns_listen = value })
              (c.next_arg d) arg)
            (Within-if (laws.unread d) (c.val d ≟ codes "wg_poll_interval") _ _
              (Within-with_duration (laws.unread d) (c.val d)
                (λ value. record v { wg_poll_interval = some value }) (c.next_arg d) arg)
              (Within-if (laws.unread d) (c.val d ≟ codes "etcd_sync_interval") _ _
                (Within-with_duration (laws.unread d) (c.val d)
                  (λ value. record v { etcd_sync_interval = some value }) (c.next_arg d) arg)
                tt))))

  Within-and_then :
      (m n : ℕ) (r : Parsed c parse_duration) (f : Settings V → D → Parsed c parse_duration)
      → Within m r
      → ((v : Settings V) (d : D) → laws.unread d ≤ m → Within n (f v d))
      → Within n (and_then c parse_duration r f)
  Within-and_then m n (ok (v, d)) f h k = k v d h
  Within-and_then m n (err out_of_fuel) f h k = absurd h
  Within-and_then m n (err arg_err) f h k = tt
  Within-and_then m n (err (invalid_duration name)) f h k = tt
  Within-and_then m n (err (unknown_property name)) f h k = tt

  Within-more : (m n : ℕ) (r : Parsed c parse_duration) → m ≤ n → Within m r → Within n r
  Within-more m n (ok (v, d)) le h = omega arith
  Within-more m n (err out_of_fuel) le h = h
  Within-more m n (err arg_err) le h = tt
  Within-more m n (err (invalid_duration name)) le h = tt
  Within-more m n (err (unknown_property name)) le h = tt

  Within-parse_block :
      (fuel : ℕ) (d : D) (v : Settings V)
      → laws.unread d < fuel
      → Within (laws.unread d) (parse_block c parse_duration fuel d v)
  unfolding parse_block
  Within-parse_block zero d v h = absurd (omega arith)
  Within-parse_block (suc fuel) d v h = elim (Bool-cases (c.next_block d).0) [
    | inr ends ↦ rw (parse_block, ends) (laws.next_block_ends d)
    | inl more ↦
        let d1 = (c.next_block d).1 in
        let less = laws.next_block_loads d more in
        rw (parse_block, more)
          (Within-and_then (laws.unread d1) (laws.unread d) (directive c parse_duration d1 v) _
            (Within-directive d1 v)
            (λ v' d' le.
              Within-more (laws.unread d') (laws.unread d) _ (omega arith)
                (Within-parse_block fuel d' v' (omega arith))))
  ]

  Within-parse_corefile :
      (fuel : ℕ) (d : D) (v : Settings V)
      → laws.unread d < fuel
      → Within (laws.unread d) (parse_corefile c parse_duration fuel d v)
  unfolding parse_corefile
  Within-parse_corefile zero d v h = absurd (omega arith)
  Within-parse_corefile (suc fuel) d v h = elim (Bool-cases (c.next d).0) [
    | inr ends ↦ rw (parse_corefile, ends) (laws.next_ends d)
    | inl more ↦
        let d1 = (c.next d).1 in
        let less = laws.next_loads d more in
        rw (parse_corefile, more)
          (Within-and_then (laws.unread d1) (laws.unread d)
            (parse_block c parse_duration fuel d1 (with_zone c parse_duration d1 v)) _
            (Within-parse_block fuel d1 (with_zone c parse_duration d1 v) (omega arith))
            (λ v' d' le.
              Within-more (laws.unread d') (laws.unread d) _ (omega arith)
                (Within-parse_corefile fuel d' v' (omega arith))))
  ]

  Within-ends : (n : ℕ) (r : Parsed c parse_duration) → Within n r → r ≢ err out_of_fuel
  Within-ends n (ok (v, d)) h e = cc
  Within-ends n (err out_of_fuel) h e = h
  Within-ends n (err arg_err) h e = cc
  Within-ends n (err (invalid_duration name)) h e = cc
  Within-ends n (err (unknown_property name)) h e = cc

  -- The reading of a Corefile ends, with settings or with one of the errors of the code, within as
  -- many rounds of its loops as there are tokens.
  pub parse_corefile-ends :
      (fuel : ℕ) (d : D)
      → laws.unread d < fuel
      → parse_corefile c parse_duration fuel d default_settings ≢ err out_of_fuel
  parse_corefile-ends fuel d room =
      Within-ends (laws.unread d) _ (Within-parse_corefile fuel d default_settings room)
