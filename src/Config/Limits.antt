-- ===== src/Config/Limits.antt =====
-- What a configuration that rdpflux/config.py has loaded satisfies.
use rdpflux.Prelude.{
  ℕ, ◌≤◌, ◌≡◌, ◌⊎◌, refl, subst, arith, String, Bool, true, false, ◌&&◌, ◌||◌, not, Option, none,
  some, leb, chars, inl, inr,
}
use rdpflux.Prelude.Int.{pos, negsuc}
use rdpflux.Prelude.Floats.{Floats}
use rdpflux.Prelude.Result.{ok, Yields, Yields-require, >>=-eq-ok, require, ok-injective}
use rdpflux.Json.{Json, Fields, null, bool, int, float, str, arr, obj, end, get, as_str}
use rdpflux.Policy.{Endpoint}
use rdpflux.Config.{
  Builtins, check_integer, load_json, get_or, get_array, get_boolean, check_number,
}
use rdpflux.Config.Client.{
  parse_rules, parse_all_socks, ClientConfig, ControlSection, load_client_config, load_client,
  control_section, or_no_control, control_listen, as_limits, as_text, min_token_length, is_set,
}

pub check_integer-range :
    (value : Json) (lo hi : ℕ) → Yields (λ n. (lo ≤ n) × (n ≤ hi)) (check_integer value lo hi)
unfolding check_integer
check_integer-range (int (pos n)) lo hi a e = ground arith
check_integer-range (int (negsuc n)) lo hi a e = cc
check_integer-range null lo hi a e = cc
check_integer-range (bool b) lo hi a e = cc
check_integer-range (float x) lo hi a e = cc
check_integer-range (str s) lo hi a e = cc
check_integer-range (arr xs) lo hi a e = cc
check_integer-range (obj fs) lo hi a e = cc

-- A listener of the control API asks for a token of 16 characters, unless that was waived.
abbrev pub IsGuarded : Option Endpoint → Bool → String → ℕ → Type 0
IsGuarded listen allow_no_token token max_sessions =
    ((is_set listen ≡ false) ⊎ ((allow_no_token ≡ true) ⊎ (min_token_length ≤ chars token)))
    × ((1 ≤ max_sessions) × (max_sessions ≤ 256))

abbrev SectionIsGuarded : ControlSection → Type 0
SectionIsGuarded c = IsGuarded c.listen c.allow_no_token c.token c.max_sessions

token_test :
    (listen allow_no_token : Bool) (token : String)
    → (not (listen && not allow_no_token) || leb min_token_length (chars token)) ≡ true
    → (listen ≡ false) ⊎ ((allow_no_token ≡ true) ⊎ (min_token_length ≤ chars token))
token_test false allow token h = inl refl
token_test true true token h = inr (inl refl)
token_test true false token h = inr (inr (ground arith))

module _ (py : Builtins) (fl : Floats) where
  control_section-IsGuarded :
      (control : Fields) → Yields SectionIsGuarded (control_section py fl control)
  unfolding control_section
  control_section-IsGuarded control c e =
      let (listen, _, e1) = >>=-eq-ok (control_listen py (as_str (get "listen" control))) _ e in
      let (token, _, e2) = >>=-eq-ok (as_text (get_or "token" control (str ""))) _ e1 in
      let (allow_no_token, _, e3) = >>=-eq-ok (get_boolean control "allow_no_token" false) _ e2 in
      let (exec, _, e4) = >>=-eq-ok (get_boolean control "exec" false) _ e3 in
      let (file_transfer, _, e5) = >>=-eq-ok (get_boolean control "file_transfer" false) _ e4 in
      let (system_ops, _, e6) = >>=-eq-ok (get_boolean control "system_ops" false) _ e5 in
      let (clipboard, _, e7) = >>=-eq-ok (get_boolean control "clipboard" false) _ e6 in
      let (sessions, counted, e8) =
        >>=-eq-ok (check_integer (get_or "max_sessions" control (int (pos 8))) 1 256) _ e7 in
      let (timeout, _, e9) =
        >>=-eq-ok
          (check_number fl (get_or "session_idle_timeout" control (float "1800.0")) none true) _
          e8 in
      let (_, guard, e10) =
        >>=-eq-ok
          (require (not (is_set listen && not allow_no_token) || leb min_token_length (chars token))
            _)
          _ e9 in
      let guarded = token_test (is_set listen) allow_no_token token (Yields-require _ _ _ guard) in
      let range =
        check_integer-range (get_or "max_sessions" control (int (pos 8))) 1 256 sessions counted in
      subst SectionIsGuarded (ok-injective e10) (guarded, range)

  or_no_control-IsGuarded : (o : Option Json) → Yields SectionIsGuarded (or_no_control py fl o)
  or_no_control-IsGuarded none c e =
      subst SectionIsGuarded (ok-injective e) (inl refl, (omega arith, omega arith))
  or_no_control-IsGuarded (some null) c e =
      subst SectionIsGuarded (ok-injective e) (inl refl, (omega arith, omega arith))
  or_no_control-IsGuarded (some (obj control)) c e = control_section-IsGuarded control c e
  or_no_control-IsGuarded (some (bool b)) c e = cc
  or_no_control-IsGuarded (some (int z)) c e = cc
  or_no_control-IsGuarded (some (float x)) c e = cc
  or_no_control-IsGuarded (some (str s)) c e = cc
  or_no_control-IsGuarded (some (arr xs)) c e = cc

  abbrev pub ClientIsGuarded : ClientConfig → Type 0
  ClientIsGuarded c =
      IsGuarded c.control_listen c.allow_no_token c.control_token c.max_sessions
      × ((1 ≤ c.max_streams) × (c.max_streams ≤ 4096))

  -- A client configuration that has loaded: where the control API has a listener and
  -- `allow_no_token` is not set, its token has 16 characters at least; 1 to 256 sessions and 1 to 4096
  -- streams are allowed.
  pub load_client_config-IsGuarded :
      (path : Option (Option Json)) (c : ClientConfig)
      → load_client_config py fl path ≡ ok c
      → ClientIsGuarded c
  unfolding load_client_config load_client
  load_client_config-IsGuarded path c e =
      let (raw, _, e1) = >>=-eq-ok (load_json path) _ e in
      let (local, _, e2) = >>=-eq-ok (get_array raw "local_forwards") _ e1 in
      let (local_forwards, _, e3) = >>=-eq-ok (parse_rules py local "local_forwards") _ e2 in
      let (sync, _, e4) = >>=-eq-ok (get_array raw "sync_forwards") _ e3 in
      let (sync_forwards, _, e5) = >>=-eq-ok (parse_rules py sync "sync_forwards") _ e4 in
      let (proxy, _, e6) = >>=-eq-ok (get_array raw "proxy_forwards") _ e5 in
      let (proxy_forwards, _, e7) = >>=-eq-ok (parse_rules py proxy "proxy_forwards") _ e6 in
      let (reverse, _, e8) = >>=-eq-ok (get_array raw "reverse_forwards") _ e7 in
      let (reverse_forwards, _, e9) = >>=-eq-ok (parse_rules py reverse "reverse_forwards") _ e8 in
      let (listeners, _, e10) = >>=-eq-ok (get_array raw "socks") _ e9 in
      let (socks, _, e11) = >>=-eq-ok (parse_all_socks py listeners) _ e10 in
      let (control, section, e12) = >>=-eq-ok (or_no_control py fl (get "control" raw)) _ e11 in
      let (limits, _, e13) = >>=-eq-ok (as_limits py fl (get_or "limits" raw (obj end))) _ e12 in
      let (streams, counted, e14) =
        >>=-eq-ok (check_integer (get_or "max_streams" limits (int (pos 128))) 1 4096) _ e13 in
      let (connect, _, e15) =
        >>=-eq-ok
          (check_number fl (get_or "connect_timeout" limits (float "15.0")) (some "300.0") false) _
          e14 in
      let (idle, _, e16) =
        >>=-eq-ok (check_number fl (get_or "idle_timeout" limits (float "0.0")) none true) _ e15 in
      let guarded = or_no_control-IsGuarded (get "control" raw) control section in
      let range =
        check_integer-range (get_or "max_streams" limits (int (pos 128))) 1 4096 streams counted in
      subst ClientIsGuarded (ok-injective e16) (guarded, range)
