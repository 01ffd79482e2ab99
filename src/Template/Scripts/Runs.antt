-- ===== src/Template/Scripts/Runs.antt =====
-- Any use of one `redis_template` object over time: its script methods in any order, and between
-- them anything that does not touch the cache, such as its other methods or other clients of the
-- server.
use redisdal.Prelude.{List, [], refl}
use redisdal.Text.{Bytes}
use redisdal.Local.{WithLocal}
use redisdal.Local.Maintains.{Outcome, returned, thrown}
use redisdal.Errors.{Result}
use redisdal.Template.{RedisTemplate}
use redisdal.Template.Scripts.{TemplateState, script_load, eval_sha1}
use redisdal.Template.Scripts.Cache.{LoadsBy, IsSound, script_load-IsSound, eval_sha1-IsSound}

module _ {S K V : Type 0} (tpl : RedisTemplate S K V) where
  -- One call, with the state before and after it, whether it returns or throws.
  pub data Step : TemplateState S → TemplateState S → Type 0 where
    loads : (script : Bytes) (w : TemplateState S) → Step w (script_load tpl.connection script w).1
    evaluates :
        (sha1 : Bytes) (keys : List K) (args : List V) (w : TemplateState S)
        → Step w (eval_sha1 tpl sha1 keys args w).1
    elsewhere : (w : TemplateState S) (s : S) → Step w (record w { state = s })

  -- Calls one after another.
  pub data Run : TemplateState S → TemplateState S → Type 0 where
    done : (w : TemplateState S) → Run w w
    then : {w w' w'' : TemplateState S} → Run w w' → Step w' w'' → Run w w''

-- Whatever the outcome, the container satisfies the predicate.
after :
    {S M A : Type 0} {P : M → Type 0} {Q : A → Type 0} (r : Result A × WithLocal S M)
    → Outcome P Q r
    → P r.1.local
after _ (returned a w q p) = p
after _ (thrown e w p) = p

module _ {S K V : Type 0} (tpl : RedisTemplate S K V) (sha_of : Bytes → Bytes)
    (loads_by : LoadsBy sha_of tpl.connection) where
  Step-IsSound :
      {w w' : TemplateState S} → Step tpl w w' → IsSound sha_of w.local → IsSound sha_of w'.local
  Step-IsSound (loads script w) sound =
      after _ ((script_load-IsSound tpl.connection loads_by script).at w sound)
  Step-IsSound (evaluates sha1 keys args w) sound =
      after _ ((eval_sha1-IsSound tpl.connection loads_by tpl refl sha1 keys args).at w sound)
  Step-IsSound (elsewhere w s) sound = sound

  pub Run-IsSound :
      {w w' : TemplateState S} → Run tpl w w' → IsSound sha_of w.local → IsSound sha_of w'.local
  Run-IsSound (done w) sound = sound
  Run-IsSound (then run step) sound = Step-IsSound step (Run-IsSound run sound)

  -- For a facade whose connection answers each script load with `sha_of` of the script: in every
  -- state that calls reach from a state with an empty cache, each entry of the cache has the SHA-1 of
  -- its script as its key. The calls are `script_load` and `eval_sha1` in any number and order,
  -- returned or thrown, and changes of the state behind the connection by anything else.
  pub cache_always-IsSound :
      (s : S) (w : TemplateState S)
      → Run tpl (record { state = s; local = [] }) w
      → IsSound sha_of w.local
  cache_always-IsSound s w run = Run-IsSound run tt
