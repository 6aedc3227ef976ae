-- ===== src/Client/Args/Laws.antt =====
-- The configurations that `parse_args` accepts.
use mach_audio.Prelude.{
  Bool-cases, ℤ, pos, ◌≤ℤ◌, ◌≡◌, ap, ◌∙◌, ◌↔◌, ◌⊎◌, inl, inr, true, not, List, [], ◌∷◌, arith,
  subst,
}
use mach_audio.Client.{ClientConfig}
use mach_audio.Client.Args.{
  ClientOption, Parsed, accepted, exited, set_option, check_config, with_defaults, parse_loop,
  parse_args, initial, is_some,
}
use Prim.Native.String.{String}

-- The configurations that `parse_args` may return: an input file, a socket name, and either a
-- directory and no port, or a host with an unprivileged port.
pub record IsUsable (c : ClientConfig) : Type 0 where
  pub has_input : is_some c.input_file ≡ true
  pub has_name : is_some c.uds_name ≡ true
  pub one_place : is_some c.uds_dir ≡ not (is_some c.host)
  pub uds_port : is_some c.uds_dir ≡ true → c.port ≡ pos 0
  pub tcp_port : is_some c.host ≡ true → (pos 1024 ≤ℤ c.port) × (c.port ≤ℤ pos 65535)

-- The tests return the configuration that they are given.
check_config-same : (c r : ClientConfig) → check_config c ≡ accepted r → c ≡ r
unfolding check_config
check_config-same c r e = ground arith

check_config-one_place :
    (c r : ClientConfig)
    → is_some c.uds_dir ≡ not (is_some c.host) ⊎ (is_some c.uds_dir ≡ true)
    → check_config c ≡ accepted r
    → is_some c.uds_dir ≡ not (is_some c.host)
unfolding check_config
check_config-one_place c r places e = ground arith

check_config_uds :
    (c r : ClientConfig) → check_config c ≡ accepted r → is_some c.uds_dir ≡ true → c.port ≡ pos 0
unfolding check_config
check_config_uds c r e dir = ground arith

check_config_tcp :
    (c r : ClientConfig)
    → check_config c ≡ accepted r
    → is_some c.host ≡ true
    → (pos 1024 ≤ℤ c.port) × (c.port ≤ℤ pos 65535)
unfolding check_config
check_config_tcp c r e tcp = ground arith

check_config_input :
    (c r : ClientConfig) → check_config c ≡ accepted r → is_some c.input_file ≡ true
unfolding check_config
check_config_input c r e = ground arith

with_defaults_places :
    (c : ClientConfig)
    → let d = with_defaults c in
      is_some d.uds_dir ≡ not (is_some d.host) ⊎ (is_some d.uds_dir ≡ true)
unfolding with_defaults
with_defaults_places c = ground arith

with_defaults_name : (c : ClientConfig) → is_some (with_defaults c).uds_name ≡ true
unfolding with_defaults
with_defaults_name c = ground arith

usable : (c r : ClientConfig) → c ≡ r → IsUsable c → check_config c ≡ accepted r
unfolding check_config
usable c r e h = rw (← e) (elim (Bool-cases (is_some c.host)) [
  | inl over_tcp ↦
      (let range = h.tcp_port over_tcp in
        let place = h.one_place in let input = h.has_input in ground arith)
  | inr over_uds ↦
      (let port = h.uds_port (h.one_place ∙ ap not over_uds) in
        let place = h.one_place in let input = h.has_input in ground arith)
])

-- The tests behind the loop return a configuration exactly if it is usable once the defaults are
-- filled in, and then they return that one.
pub check_config_iff :
    (c r : ClientConfig)
    → (check_config (with_defaults c) ≡ accepted r)
      ↔ ((with_defaults c ≡ r) × IsUsable (with_defaults c))
check_config_iff c r = (checked, λ h. usable (with_defaults c) r h.0 h.1)
  where
    checked :
        check_config (with_defaults c) ≡ accepted r
        → (with_defaults c ≡ r) × IsUsable (with_defaults c)
    checked e = (
      check_config-same (with_defaults c) r e,
      record {
        has_input = check_config_input (with_defaults c) r e;
        has_name = with_defaults_name c;
        one_place = check_config-one_place (with_defaults c) r (with_defaults_places c) e;
        uds_port = check_config_uds (with_defaults c) r e;
        tcp_port = check_config_tcp (with_defaults c) r e;
      },
    )

module _ (atoi : String → ℤ) where
  -- If the loop accepts, what it accepts passed the tests.
  parse_loop_accepts :
      (c r : ClientConfig) (options : List ClientOption)
      → parse_loop atoi c options ≡ accepted r
      → (last : ClientConfig) × (check_config (with_defaults last) ≡ accepted r)
  unfolding parse_loop
  parse_loop_accepts c r [] e = (c, e)
  parse_loop_accepts c r (option ∷ options) e =
      next (set_option atoi c option) (λ after. parse_loop_accepts after r options) e
    where
      next :
          (got : Parsed)
          → ((after : ClientConfig)
              → parse_loop atoi after options ≡ accepted r
              → (last : ClientConfig) × (check_config (with_defaults last) ≡ accepted r))
          → elim got [
            | accepted after ↦ parse_loop atoi after options
            | exited status ↦ exited status
          ]
            ≡ accepted r
          → (last : ClientConfig) × (check_config (with_defaults last) ≡ accepted r)
      next (accepted after) go same = go after same
      next (exited status) go same = absurd (cc)

  -- Whatever the options, a configuration that `parse_args` returns is usable: it names an input
  -- file, a socket name, and either a socket directory with port 0 or a host with a port from 1024
  -- to 65535.
  pub parse_args-IsUsable :
      (options : List ClientOption) (r : ClientConfig)
      → parse_args atoi options ≡ accepted r
      → IsUsable r
  unfolding parse_args
  parse_args-IsUsable options r e =
      let got = parse_loop_accepts initial r options e in
      let h = (check_config_iff got.0 r).0 got.1 in subst IsUsable h.0 h.1
