-- ===== src/Template/Scripts/Cache.antt =====
-- What the script cache of `redis_template` holds.
use redisdal.Prelude.{
  Option, none, some, List, [], ◌∷◌, ◌++◌, All, ◌≡◌, refl, inl, inr, Bool-cases, Option-cases,
}
use redisdal.Text.{Bytes, same_text, same_text_iff}
use redisdal.Errors.{Error, no_script_error, Result, ok}
use redisdal.Reply.Decode.{StringMap, find, emplace}
use redisdal.Exec.{Exec}
use redisdal.Local.Maintains.{
  Outcome, returned, thrown, Maintains, Anything, Maintains-pure, Maintains-raise, Maintains-lift,
  Maintains-on_state, Maintains-get_local, Maintains-set_local, Maintains->>=,
}
use redisdal.KvConnection.{KvConnection}
use redisdal.Template.{RedisTemplate}
use redisdal.Template.Scripts.{
  TemplateState, handled, catch_no_script, remember, script_load, reload_found, reload, eval_sha1,
}

-- The connection names a script that it loads by `sha_of`.
abbrev pub LoadsBy : {S : Type 0} → (Bytes → Bytes) → KvConnection S → Type 0
LoadsBy {S} sha_of connection =
    (script sha : Bytes) (s : S)
    → (connection.script_load script s).0 ≡ ok sha
    → sha ≡ sha_of script

-- Every entry is the SHA-1 of a script, and this script.
abbrev pub IsSound : (Bytes → Bytes) → StringMap → Type 0
IsSound sha_of cache = All (λ entry. entry.0 ≡ sha_of entry.1) cache

module _ (sha_of : Bytes → Bytes) where
  append-IsSound :
      (cache : StringMap) (script : Bytes)
      → IsSound sha_of cache
      → IsSound sha_of (cache ++ ((sha_of script, script) ∷ []))
  append-IsSound [] script h = (refl, tt)
  append-IsSound (entry ∷ cache) script (e, h) = (e, append-IsSound cache script h)

  pub emplace-IsSound :
      (sha script : Bytes) (cache : StringMap)
      → sha ≡ sha_of script
      → IsSound sha_of cache
      → IsSound sha_of (emplace sha script cache)
  unfolding emplace
  emplace-IsSound sha script cache e h = elim (Option-cases (find sha cache)) [
    | inl new ↦ rw (new, e) (append-IsSound cache script h)
    | inr (old, present) ↦ rw (present) h
  ]

  -- A script that is found has the SHA-1 that it was looked for by.
  pub find-IsSound :
      (sha script : Bytes) (cache : StringMap)
      → IsSound sha_of cache
      → find sha cache ≡ some script
      → sha ≡ sha_of script
  unfolding find
  find-IsSound sha script [] h e = cc
  find-IsSound sha script ((k, body) ∷ cache) (p, h) e = elim (Bool-cases (same_text k sha)) [
    | inl same ↦
        let key : k ≡ sha = (same_text_iff k sha).0 same in
        let found : some body ≡ some script = rw (same) at e in cc
    | inr other ↦ find-IsSound sha script cache h (rw (other) at e)
  ]

module _ {S A : Type 0} {P : StringMap → Type 0} {Q : A → Type 0}
    {call : Exec (TemplateState S) A} where
  Maintains-catch :
      (handler : Error → Exec (TemplateState S) A)
      → Maintains P Q call
      → ((e : Error) → Maintains P Q (handler e))
      → Maintains P Q (catch_no_script call handler)
  unfolding catch_no_script
  Maintains-catch handler h k = record { at = λ w p. caught (call w) (h.at w p) }
    where
      caught :
          (r : Result A × TemplateState S) → Outcome P Q r → Outcome P Q (handled r.0 handler r.1)
      caught _ (returned a w q p) = returned a w q p
      caught _ (thrown (no_script_error cmd sha1) w p) = (k _).at w p
      caught _ (thrown e w p) = thrown e w p

module _ {S : Type 0} (sha_of : Bytes → Bytes) where
  remember-IsSound :
      (sha script : Bytes)
      → sha ≡ sha_of script
      → Maintains {S = S} (IsSound sha_of) Anything (remember sha script)
  unfolding remember
  remember-IsSound sha script e =
      Maintains->>= _ Maintains-get_local
        (λ cache sound. Maintains-set_local _ (emplace-IsSound sha_of sha script cache e sound))

module _ {S : Type 0} {sha_of : Bytes → Bytes} (connection : KvConnection S)
    (loads : LoadsBy sha_of connection) where
  pub script_load-IsSound :
      (script : Bytes)
      → Maintains (IsSound sha_of) (λ sha. sha ≡ sha_of script) (script_load connection script)
  unfolding script_load
  script_load-IsSound script =
      Maintains->>= _ (Maintains-on_state _ (λ sha s e. loads script sha s e)) (λ sha e.
        Maintains->>= _ (remember-IsSound sha_of sha script e) (λ _ _. Maintains-pure sha e))

  reload_found-IsSound :
      (s_keys s_args : List Bytes) (cause : Error) (found : Option Bytes)
      → Maintains (IsSound sha_of) Anything (reload_found connection s_keys s_args cause found)
  reload_found-IsSound s_keys s_args cause none = Maintains-raise cause
  reload_found-IsSound s_keys s_args cause (some script) =
      Maintains->>= _ (Maintains-on_state _ (λ sha s e. loads script sha s e)) (λ sha e.
        Maintains->>= _ (remember-IsSound sha_of sha script e)
          (λ _ _. Maintains-on_state _ (λ _ _ _. tt)))

  reload-IsSound :
      (sha1 : Bytes) (s_keys s_args : List Bytes) (cause : Error)
      → Maintains (IsSound sha_of) Anything (reload connection sha1 s_keys s_args cause)
  unfolding reload
  reload-IsSound sha1 s_keys s_args cause =
      Maintains->>= _ Maintains-get_local
        (λ cache sound. reload_found-IsSound s_keys s_args cause (find sha1 cache))

  pub eval_sha1-IsSound :
      {K V : Type 0} (tpl : RedisTemplate S K V)
      → tpl.connection ≡ connection
      → (sha1 : Bytes) (keys : List K) (args : List V)
      → Maintains (IsSound sha_of) Anything (eval_sha1 tpl sha1 keys args)
  unfolding eval_sha1
  eval_sha1-IsSound tpl same sha1 keys args = rw (same) (
      Maintains->>= _ (Maintains-lift _) (λ s_keys _.
        Maintains->>= _ (Maintains-lift _) (λ s_args _.
          Maintains-catch _ (Maintains-on_state _ (λ _ _ _. tt))
            (reload-IsSound sha1 s_keys s_args))))
