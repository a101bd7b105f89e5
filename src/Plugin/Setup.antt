-- ===== src/Plugin/Setup.antt =====
-- coredns-plugin/valon/setup.go: the Corefile, read into the fields of the plugin. Caddy's
-- controller is not part of the repository: its operations are a parameter, and `IsController`
-- states that a token is loaded at most once. `time.ParseDuration` is a parameter. The loops run on
-- fuel; more than there are tokens left is enough.
pub mod Ends
use valon.Prelude.{
  ℕ, zero, suc, ◌≤◌, ◌<◌, ◌≡◌, Bool, true, false, Option, none, some, List, [], ◌∷◌, ◌++◌, Bytes,
  codes, Result, ok, err, if◌then◌else◌, ◌≟◌,
}

-- `next`, `next_block` and `next_arg` say whether a token was loaded, and `val` is that token.
pub record Controller (D : Type 0) : Type 0 where
  pub next : D → Bool × D
  pub next_block : D → Bool × D
  pub next_arg : D → Bool × D
  pub remaining_args : D → List Bytes × D
  pub val : D → Bytes

-- `unread` counts the tokens that are left.
pub record IsController {D : Type 0} (c : Controller D) : Type 0 where
  pub unread : D → ℕ
  pub next_loads : (d : D) → (c.next d).0 ≡ true → unread (c.next d).1 < unread d
  pub next_ends : (d : D) → unread (c.next d).1 ≤ unread d
  pub next_block_loads : (d : D) → (c.next_block d).0 ≡ true → unread (c.next_block d).1 < unread d
  pub next_block_ends : (d : D) → unread (c.next_block d).1 ≤ unread d
  pub next_arg_reads : (d : D) → unread (c.next_arg d).1 ≤ unread d
  pub remaining_args_reads : (d : D) → unread (c.remaining_args d).1 ≤ unread d

-- The fields that the Corefile sets; an interval is `none` until it is set.
pub record Settings (V : Type 0) : Type 0 where
  pub etcd_endpoints : List Bytes
  pub wg_interface : Bytes
  pub ddns_listen : Bytes
  pub zone : Bytes
  pub wg_poll_interval : Option V
  pub etcd_sync_interval : Option V

abbrev pub default_settings : {V : Type 0} → Settings V
default_settings = record {
  etcd_endpoints = [];
  wg_interface = codes "wg0";
  ddns_listen = codes "127.0.0.1:8080";
  zone = codes "valon.internal.";
  wg_poll_interval = none;
  etcd_sync_interval = none;
}

pub data SetupError : Type 0 where
  arg_err out_of_fuel : SetupError
  invalid_duration unknown_property : Bytes → SetupError

module _ {D V : Type 0} (c : Controller D) (parse_duration : Bytes → Option V) where
  abbrev pub Parsed : Type 0
  Parsed = Result SetupError (Settings V × D)

  with_endpoints : Settings V → List Bytes × D → Parsed
  with_endpoints v ([], d) = err arg_err
  with_endpoints v (arg ∷ args, d) =
      ok (record v { etcd_endpoints = v.etcd_endpoints ++ arg ∷ args }, d)

  with_value : (Bytes → Settings V) → Bool × D → Parsed
  with_value set (false, d) = err arg_err
  with_value set (true, d) = ok (set (c.val d), d)

  with_duration : Bytes → (V → Settings V) → Bool × D → Parsed
  with_duration name set (false, d) = err arg_err
  with_duration name set (true, d) = elim (parse_duration (c.val d)) [
    | none ↦ err (invalid_duration name)
    | some duration ↦ ok (set duration, d)
  ]

  -- the switch on the directive
  unfoldable pub directive : D → Settings V → Parsed
  unfolding with_endpoints with_value with_duration
  directive d v =
      let name = c.val d in
      if name ≟ codes "etcd_endpoints"
      then with_endpoints v (c.remaining_args d)
      else if name ≟ codes "wg_interface"
      then with_value (λ value. record v { wg_interface = value }) (c.next_arg d)
      else if name ≟ codes "ddns_listen"
      then with_value (λ value. record v { ddns_listen = value }) (c.next_arg d)
      else if name ≟ codes "wg_poll_interval"
      then with_duration name (λ value. record v { wg_poll_interval = some value }) (c.next_arg d)
      else if name ≟ codes "etcd_sync_interval"
      then with_duration name (λ value. record v { etcd_sync_interval = some value }) (c.next_arg d)
      else err (unknown_property name)

  abbrev pub and_then : Parsed → (Settings V → D → Parsed) → Parsed
  and_then (err x) f = err x
  and_then (ok (v, d)) f = f v d

  -- the loop over the directives of a block
  unfoldable pub parse_block : ℕ → D → Settings V → Parsed
  unfolding directive
  parse_block zero d v = err out_of_fuel
  parse_block (suc fuel) d v = elim (c.next_block d).0 [
    | false ↦ ok (v, (c.next_block d).1)
    | true ↦ and_then (directive (c.next_block d).1 v) (λ v' d'. parse_block fuel d' v')
  ]

  abbrev pub with_zone : D → Settings V → Settings V
  with_zone d v = if c.val d ≟ codes "valon" then v else record v { zone = c.val d }

  -- the loop over the tokens outside of blocks
  unfoldable pub parse_corefile : ℕ → D → Settings V → Parsed
  unfolding parse_block
  parse_corefile zero d v = err out_of_fuel
  parse_corefile (suc fuel) d v = elim (c.next d).0 [
    | false ↦ ok (v, (c.next d).1)
    | true ↦
        and_then (parse_block fuel (c.next d).1 (with_zone (c.next d).1 v))
          (λ v' d'. parse_corefile fuel d' v')
  ]
