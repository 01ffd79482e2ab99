-- ===== src/SyncConnection/Handshake.antt =====
-- The constructor of `sync_connection`: what has happened when it returns.
use redisdal.Prelude.{
  Bool, true, false, not, ◌||◌, Option, none, some, List, [], ◌∷◌, ◌++◌, is_empty, ◌≡◌, refl, sym,
  ap, ◌∙◌, ◌⊎◌, inl, inr, Bool-cases, ◌==◌, if◌then◌else◌,
}
use redisdal.Text.{Bytes, text, same_text_iff}
use redisdal.Text.Decimal.{decimal}
use redisdal.Errors.{Result, ok, err}
use redisdal.Exec.{Exec, pure, lift, continue, ◌>>=◌}
use redisdal.Reply.{CmdReply, status, same_type, get_type, get_string, is_error}
use redisdal.Config.{RedisScheme, tcp, unix, redis, RedisConfig, parse_redis_url}
use redisdal.Hiredis.{RedisReply, Hiredis}
use redisdal.SyncConnection.Convert.{convert_reply, equals_ok, validate_ok_reply}
use redisdal.SyncConnection.Transport.{
  caught, converted, exec_args, cmd_execv, connect, connected, run_ok, authenticate, select_index,
  sync_connection, c_str,
}

module _ {S A B : Type 0} where
  continue_returned :
      (p : Result A × S) (f : A → Exec S B) {b : B} {s' : S}
      → continue p.0 f p.1 ≡ (ok b, s')
      → (a : A) × (p.0 ≡ ok a) × (f a p.1 ≡ (ok b, s'))
  continue_returned (ok a, s) f e = (a, refl, e)
  continue_returned (err x, s) f {b} e = let thrown : err x ≡ ok b = ap (λ r. r.0) e in cc

  -- A sequence that returned went through the value of its first part.
  returned_through :
      (m : Exec S A) (f : A → Exec S B) (s : S) {b : B} {s' : S}
      → (m >>= f) s ≡ (ok b, s')
      → (a : A) × ((m s).0 ≡ ok a) × (f a (m s).1 ≡ (ok b, s'))
  unfolding ◌>>=◌
  returned_through m f s e = continue_returned (m s) f e

-- A status reply with the text OK.
abbrev pub IsOkStatus : CmdReply → Type 0
IsOkStatus reply =
    (same_type (get_type reply) status ≡ true) × (get_string reply ≡ some (text "OK"))

both_true : (a b : Bool) → (not a || not b) ≡ false → (a ≡ true) × (b ≡ true)
both_true true true e = (refl, refl)
both_true true false e = cc
both_true false b e = cc

equals_ok-some : (t : Option Bytes) → equals_ok t ≡ true → t ≡ some (text "OK")
equals_ok-some none e = cc
equals_ok-some (some s) e = ap some ((same_text_iff s (text "OK")).0 e)

validated :
    (command : Bytes) (reply : CmdReply)
    → validate_ok_reply command reply ≡ ok tt
    → IsOkStatus reply
unfolding validate_ok_reply
validated command reply e = elim (Bool-cases (is_error reply)) [
  | inl bad ↦ let thrown : err _ ≡ ok tt = rw (bad) at e in cc
  | inr fine ↦
      elim (Bool-cases
        (not (same_type (get_type reply) status) || not (equals_ok (get_string reply)))) [
          | inl other ↦ let thrown : err _ ≡ ok tt = rw (fine, other) at e in cc
          | inr passed ↦
              let (is_status, said) = both_true _ _ passed in
              (is_status, equals_ok-some (get_string reply) said)
        ]
]

-- The commands that a configuration asks for, in their order.
unfoldable pub auth_commands : RedisConfig → List (List Bytes)
auth_commands config =
    if is_empty config.password
    then []
    else if not (is_empty config.username)
    then (text "AUTH" ∷ config.username ∷ config.password ∷ []) ∷ []
    else (text "AUTH" ∷ config.password ∷ []) ∷ []

unfoldable pub select_commands : RedisConfig → List (List Bytes)
select_commands config =
    if config.index == 0 then [] else (text "SELECT" ∷ decimal config.index ∷ []) ∷ []

module _ (hiredis : Hiredis) where
  open hiredis use {Context}

  -- The commands are sent in this order, and each is answered with the status OK.
  pub data Accepted : List (List Bytes) → Option Context → Option Context → Type 0 where
    no_more : (s : Option Context) → Accepted [] s s
    accepted :
        {args : List Bytes} {rest : List (List Bytes)} {s s' s'' : Option Context}
        (reply : CmdReply)
        → cmd_execv hiredis args s ≡ (ok reply, s')
        → IsOkStatus reply
        → Accepted rest s' s''
        → Accepted (args ∷ rest) s s''

  pub Accepted-++ :
      {commands rest : List (List Bytes)} {s s' s'' : Option Context}
      → Accepted commands s s'
      → Accepted rest s' s''
      → Accepted (commands ++ rest) s s''
  Accepted-++ (no_more s) h = h
  Accepted-++ (accepted reply sent fine more) h = accepted reply sent fine (Accepted-++ more h)

  checked_answer :
      (command : Bytes) (c : Result CmdReply) (s s' : Option Context)
      → (lift c >>= λ reply. lift (validate_ok_reply command reply)) s ≡ (ok tt, s')
      → (reply : CmdReply) × ◌≡◌ {A = Result CmdReply × Option Context} (caught c, s) (ok reply, s')
        × IsOkStatus reply
  unfolding ◌>>=◌ lift
  checked_answer command (ok reply) s s' e =
      (reply, ap (λ r. (ok reply, r.1)) e, validated command reply (ap (λ r. r.0) e))
  checked_answer command (err x) s s' e = let thrown : err x ≡ ok tt = ap (λ r. r.0) e in cc

  converted_ok :
      (p : Result RedisReply × Option Context) (r : RedisReply)
      → p.0 ≡ ok r
      → converted hiredis p ≡ (caught (convert_reply r), p.1)
  converted_ok (ok q, s) r e = let same : q ≡ r = cc in rw (same) refl
  converted_ok (err x, s) r e = cc

  run_ok_returned :
      (args : List Bytes) (command : Bytes) (s s' : Option Context)
      → run_ok hiredis args command s ≡ (ok tt, s')
      → Accepted (args ∷ []) s s'
  unfolding run_ok cmd_execv
  run_ok_returned args command s s' e =
      let (reply, sent, next) = returned_through (exec_args hiredis args) _ s e in
      let (answer, caught_answer, fine) = checked_answer command (convert_reply reply) _ s' next in
      accepted answer (converted_ok _ reply sent ∙ caught_answer) fine (no_more s')

  authenticate_returned :
      (config : RedisConfig) (s s' : Option Context)
      → authenticate hiredis config s ≡ (ok tt, s')
      → Accepted (auth_commands config) s s'
  unfolding authenticate auth_commands pure
  authenticate_returned config s s' e = elim (Bool-cases (is_empty config.password)) [
    | inl missing ↦
        let stays : (ok tt, s) ≡ (ok tt, s') = rw (missing) at e in
        rw (missing, sym (ap (λ r. r.1) stays)) (no_more s)
    | inr given ↦ elim (Bool-cases (not (is_empty config.username))) [
      | inl named ↦ rw (given, named) (run_ok_returned _ _ s s' (rw (given, named) at e))
      | inr unnamed ↦ rw (given, unnamed) (run_ok_returned _ _ s s' (rw (given, unnamed) at e))
    ]
  ]

  select_returned :
      (config : RedisConfig) (s s' : Option Context)
      → select_index hiredis config s ≡ (ok tt, s')
      → Accepted (select_commands config) s s'
  unfolding select_index select_commands pure
  select_returned config s s' e = elim (Bool-cases (config.index == 0)) [
    | inl first ↦
        let stays : (ok tt, s) ≡ (ok tt, s') = rw (first) at e in
        rw (first, sym (ap (λ r. r.1) stays)) (no_more s)
    | inr other ↦ rw (other) (run_ok_returned _ _ s s' (rw (other) at e))
  ]

  connected_returned :
      (opened : Option Context) (s : Option Context) (done : Unit {0})
      → (connected hiredis opened s).0 ≡ ok done
      → (context : Context) × (opened ≡ some context)
        × (hiredis.has_err context ≡ false)
        × ((connected hiredis opened s).1 ≡ some context)
  connected_returned none s done e = cc
  connected_returned (some context) s done e = elim (Bool-cases (hiredis.has_err context)) [
    | inl failed ↦ let thrown : err _ ≡ ok done = rw (failed) at e in cc
    | inr fine ↦ (context, refl, fine, rw (fine) refl)
  ]

  returned_pair :
      (p : Result (Unit {0}) × Option Context) (done : Unit {0}) → p.0 ≡ ok done → p ≡ (ok tt, p.1)
  returned_pair (ok tt, s) done e = refl
  returned_pair (err x, s) done e = cc

  handshake_returned :
      (config : RedisConfig) (s s' : Option Context)
      → (authenticate hiredis config >>= λ authenticated. select_index hiredis config) s
        ≡ (ok tt, s')
      → Accepted (auth_commands config ++ select_commands config) s s'
  handshake_returned config s s' e =
      let (done, authed, selecting) =
        returned_through (authenticate hiredis config)
          (λ authenticated. select_index hiredis config) s e in
      Accepted-++
        (authenticate_returned config s (authenticate hiredis config s).1
          (returned_pair (authenticate hiredis config s) done authed))
        (select_returned config _ s' selecting)

  -- A context from the call of hiredis for the scheme: the path up to its first NUL for a Unix socket,
  -- and else the host name up to its first NUL with the port.
  pub data Opened : RedisConfig → Context → Type 0 where
    over_unix :
        (config : RedisConfig) (context : Context)
        → config.scheme ≡ unix
        → hiredis.redis_connect_unix (c_str config.host) ≡ some context
        → Opened config context
    over_tcp :
        (config : RedisConfig) (context : Context)
        → (config.scheme ≡ tcp) ⊎ (config.scheme ≡ redis)
        → hiredis.redis_connect (c_str config.host) config.port ≡ some context
        → Opened config context

  connect-Opened :
      (config : RedisConfig) (scheme : RedisScheme) (context : Context)
      → config.scheme ≡ scheme
      → connect hiredis scheme config ≡ some context
      → Opened config context
  connect-Opened config unix context e given = over_unix config context e given
  connect-Opened config tcp context e given = over_tcp config context (inl e) given
  connect-Opened config redis context e given = over_tcp config context (inr e) given

  -- A configuration that was parsed, with what follows from it.
  abbrev pub Established : RedisConfig → Option Context → Type 0
  Established config s' =
      (context : Context) × Opened config context
      × (hiredis.has_err context ≡ false)
      × Accepted (auth_commands config ++ select_commands config) (some context) s'

  config_returned :
      (config : RedisConfig) (s s' : Option Context)
      → (connected hiredis (connect hiredis config.scheme config) >>= λ opened.
            authenticate hiredis config >>= λ authenticated. select_index hiredis config)
          s
        ≡ (ok tt, s')
      → Established config s'
  config_returned config s s' e =
      let (done, opened, handshake) =
        returned_through (connected hiredis (connect hiredis config.scheme config))
          (λ opened. authenticate hiredis config >>= λ authenticated. select_index hiredis config) s
          e in
      let (context, given, fine, here) = connected_returned _ s done opened in
      let sent = handshake_returned config _ s' handshake in
      (context, connect-Opened config config.scheme context refl given, fine, rw (here) at sent)

  -- When the constructor of `sync_connection` returns, the URL was parsed to a configuration, and
  -- hiredis gave a context without an error, by its Unix call with the path for the scheme unix://, and
  -- by its TCP call with the host and the port for the other schemes. Then exactly these commands were
  -- sent on it in this order, each answered with the status OK: AUTH with the password, and with the
  -- user name if there is one, unless the password is empty; SELECT with the index, unless it is 0.
  pub sync_connection-Accepted :
      (url : Bytes) (s s' : Option Context)
      → sync_connection hiredis url s ≡ (ok tt, s')
      → (config : RedisConfig) × (parse_redis_url url ≡ ok config) × Established config s'
  unfolding sync_connection lift
  sync_connection-Accepted url s s' e =
      let (config, parsed, opening) =
        returned_through (lift (parse_redis_url url))
          (λ config. connected hiredis (connect hiredis config.scheme config) >>= λ opened.
            authenticate hiredis config >>= λ authenticated. select_index hiredis config)
          s e in
      (config, parsed, config_returned config s s' opening)
