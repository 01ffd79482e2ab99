-- ===== src/Config/Bounds.antt =====
-- What `parse_redis_url` of src/redis_config.cpp accepts.
use redisdal.Prelude.{
  ℕ, ◌^◌, ◌<◌, ◌||◌, Bool, true, false, Option, none, some, List, [], ◌∷◌, ◌≡◌, refl, ap, arith,
  not, ltb, ◌-◌, ◌==◌, ==_iff,
}
use redisdal.Text.{Bytes, text, same_text, starts_with}
use redisdal.Errors.{Result}
use redisdal.Reply.Ensures.{Ensures, ensures_ok, ensures_err, Any, Ensures-if, Ensures-bind}
use redisdal.Config.{
  RedisScheme, tcp, unix, redis, RedisConfig, QueryInfo, is_whole, default_query, cut, is_absolute,
  apply_user_pass, apply_after_bracket, signed_long, matches, in_run, parse_index, apply_param,
  apply_params, parse_query_params, parse_scheme, apply_query, apply_user, unsigned_long, stoul,
  skip_spaces, parse_port, apply_ipv6, apply_host_port, apply_host, apply_address, parse_redis_url,
}
use redisdal.Text.Decimal.{begins_with_digit, read_digits}
use redisdal.Serialization.{from_chars, unsigned}
use redisdal.Serialization.RoundTrip.{from_chars-bounded}

-- The index of a query fits into an `unsigned int`.
IsQuery : QueryInfo → Type 0
IsQuery info = info.index < 2 ^ 32

IsIndex : ℕ → Type 0
IsIndex n = n < 2 ^ 32

parse_index_lem : (s : Bytes) → Ensures IsIndex (parse_index s)
unfolding parse_index IsIndex
parse_index_lem s =
    let r = from_chars (unsigned 32) s in
    Ensures-if (is_whole r.ec r.rest) _ _ (λ _. ensures_ok _ (from_chars-bounded 32 s))
      (λ _. ensures_err _ tt)

apply_param_lem :
    (info : QueryInfo) (key value : Bytes)
    → IsQuery info
    → Ensures IsQuery (apply_param info key value)
unfolding apply_param IsQuery IsIndex
apply_param_lem info key value h =
    Ensures-if (same_text key (text "index")) _ _
      (λ _. Ensures-bind _ (parse_index_lem value) (λ n bound. ensures_ok _ bound))
      (λ _.
        Ensures-if (same_text key (text "db")) _ _ (λ _. ensures_err _ tt)
          (λ _.
            Ensures-if (same_text key (text "password") || same_text key (text "auth")) _ _
              (λ _. ensures_ok _ h)
              (λ _.
                Ensures-if (same_text key (text "username")) _ _ (λ _. ensures_ok _ h)
                  (λ _. ensures_ok _ h))))

apply_params_lem :
    (info : QueryInfo) (params : List (Bytes × Bytes))
    → IsQuery info
    → Ensures IsQuery (apply_params info params)
unfolding apply_params
apply_params_lem info [] h = ensures_ok info h
apply_params_lem info ((key, value) ∷ params) h =
    Ensures-bind _ (apply_param_lem info key value h) (λ info' h'. apply_params_lem info' params h')

parse_query_params_lem : (query : Bytes) → Ensures IsQuery (parse_query_params query)
unfolding parse_query_params IsQuery
parse_query_params_lem query =
    apply_params_lem default_query (matches (in_run []) query) (omega arith)

-- The port fits into an `unsigned short` and the index into an `unsigned int`, under a scheme.
IsBounded : RedisScheme → RedisConfig → Type 0
IsBounded scheme config =
    (config.port < 2 ^ 16) × (config.index < 2 ^ 32) × (config.scheme ≡ scheme)

AnyBounded : RedisConfig × Bytes → Type 0
AnyBounded (config, rest) = IsBounded config.scheme config

parse_scheme_lem : (url : Bytes) → Ensures AnyBounded (parse_scheme url)
unfolding parse_scheme AnyBounded IsBounded
parse_scheme_lem url =
    Ensures-if (starts_with url (text "tcp://")) _ _ (λ _. ensures_ok _ fits_tcp)
      (λ _.
        Ensures-if (starts_with url (text "redis://")) _ _ (λ _. ensures_ok _ fits_tcp)
          (λ _.
            Ensures-if (starts_with url (text "unix://")) _ _ (λ _. ensures_ok _ fits_unix)
              (λ _. ensures_err _ tt)))
  where
    fits_tcp : {s : RedisScheme} → (6379 < 2 ^ 16) × (0 < 2 ^ 32) × (s ≡ s)
    fits_tcp = (omega arith, omega arith, refl)

    fits_unix : {s : RedisScheme} → (0 < 2 ^ 16) × (0 < 2 ^ 32) × (s ≡ s)
    fits_unix = (omega arith, omega arith, refl)

apply_query_lem :
    (config : RedisConfig) (query : Option (Bytes × Bytes)) (rest : Bytes)
    → AnyBounded (config, rest)
    → Ensures AnyBounded (apply_query config query rest)
unfolding apply_query AnyBounded IsBounded IsQuery
apply_query_lem config none rest h = ensures_ok _ h
apply_query_lem config (some (before, query)) rest (port, index, same) =
    Ensures-bind _ (parse_query_params_lem query) (λ info bound. ensures_ok _ (port, bound, refl))

unsigned_long_lem : (minus : Bool) (digits : Bytes) → Ensures Any (unsigned_long minus digits)
unfolding unsigned_long
unsigned_long_lem minus digits =
    Ensures-if (not (begins_with_digit digits)) _ _ (λ _. ensures_err _ tt)
      (λ _.
        Ensures-if (ltb (2 ^ 64 - 1) (read_digits 0 digits).0) _ _ (λ _. ensures_err _ tt)
          (λ _. ensures_ok _ tt))

signed_long_lem : (s : Bytes) → Ensures Any (signed_long s)
signed_long_lem [] = unsigned_long_lem false []
signed_long_lem (c ∷ cs) =
    Ensures-if (c == b'-') _ _ (λ _. unsigned_long_lem true cs)
      (λ _.
        Ensures-if (c == b'+') _ _ (λ _. unsigned_long_lem false cs)
          (λ _. unsigned_long_lem false (c ∷ cs)))

stoul_lem : (s : Bytes) → Ensures Any (stoul s)
unfolding stoul
stoul_lem s = signed_long_lem (skip_spaces s)

parse_port_lem :
    (scheme : RedisScheme) (config : RedisConfig) (s : Bytes)
    → IsBounded scheme config
    → Ensures (IsBounded scheme) (parse_port config s)
unfolding parse_port IsBounded
parse_port_lem scheme config s (port, index, same) =
    Ensures-bind _ (stoul_lem s) (λ n _. ensures_ok _ (omega arith, index, same))

apply_after_bracket_lem :
    (scheme : RedisScheme) (config : RedisConfig) (s : Bytes)
    → IsBounded scheme config
    → Ensures (IsBounded scheme) (apply_after_bracket config s)
apply_after_bracket_lem scheme config [] h = ensures_ok config h
apply_after_bracket_lem scheme config (c ∷ cs) h =
    Ensures-if (c == b':') _ _ (λ _. parse_port_lem scheme config cs h) (λ _. ensures_ok config h)

-- Another host leaves the bounds as they are.
IsBounded-host :
    (scheme : RedisScheme) (config : RedisConfig) (host : Bytes)
    → IsBounded scheme config
    → IsBounded scheme (record config { host = host })
unfolding IsBounded
IsBounded-host scheme config host h = h

apply_ipv6_lem :
    (scheme : RedisScheme) (config : RedisConfig) (sides : Option (Bytes × Bytes))
    → IsBounded scheme config
    → Ensures (IsBounded scheme) (apply_ipv6 config sides)
unfolding apply_ipv6
apply_ipv6_lem scheme config none h = ensures_err _ tt
apply_ipv6_lem scheme config (some (address, after)) h =
    apply_after_bracket_lem scheme (record config { host = address }) after
      (IsBounded-host scheme config address h)

apply_host_port_lem :
    (scheme : RedisScheme) (config : RedisConfig) (rest : Bytes) (sides : Option (Bytes × Bytes))
    → IsBounded scheme config
    → Ensures (IsBounded scheme) (apply_host_port config rest sides)
unfolding apply_host_port
apply_host_port_lem scheme config rest none h = ensures_ok _ (IsBounded-host scheme config rest h)
apply_host_port_lem scheme config rest (some (host, port)) h =
    parse_port_lem scheme (record config { host = host }) port (IsBounded-host scheme config host h)

apply_host_lem :
    (scheme : RedisScheme) (config : RedisConfig) (rest : Bytes)
    → IsBounded scheme config
    → Ensures (IsBounded scheme) (apply_host config rest)
unfolding apply_host
apply_host_lem scheme config [] h = ensures_err _ tt
apply_host_lem scheme config (c ∷ cs) h =
    Ensures-if (c == b'[') _ _ (λ _. apply_ipv6_lem scheme config (cut b']' cs) h)
      (λ _. apply_host_port_lem scheme config (c ∷ cs) (cut b':' (c ∷ cs)) h)

apply_user_lem :
    (scheme : RedisScheme) (config : RedisConfig) (sides : Option (Bytes × Bytes)) (rest : Bytes)
    → IsBounded scheme config
    → IsBounded scheme (apply_user config sides rest).0
unfolding apply_user IsBounded
apply_user_lem scheme config none rest h = h
apply_user_lem scheme config (some (user_pass, after)) rest h = user_pass_lem (cut b':' user_pass)
  where
    user_pass_lem :
        (sides : Option (Bytes × Bytes)) → IsBounded scheme (apply_user_pass config user_pass sides)
    user_pass_lem none = h
    user_pass_lem (some (user, pass)) = h

-- A configuration that can be used: a port of 16 bits, an index of 32 bits and, for the Unix
-- scheme, an absolute path.
abbrev HostFits : RedisScheme → Bytes → Type 0
HostFits unix host = (rest : Bytes) × (host ≡ b'/' ∷ rest)
HostFits _ host = Unit

abbrev pub IsUsable : RedisConfig → Type 0
IsUsable config =
    (config.port < 2 ^ 16) × (config.index < 2 ^ 32) × HostFits config.scheme config.host

absolute : (s : Bytes) → is_absolute s ≡ true → HostFits unix s
absolute [] h = cc
absolute (c ∷ cs) h = (cs, ap (λ (d : ℕ). d ∷ cs) ((==_iff c b'/').0 h))

IsBounded-tcp : (config : RedisConfig) → IsBounded tcp config → IsUsable config
unfolding IsBounded
IsBounded-tcp config (port, index, same) = (port, index, rw (same) tt)

IsBounded-redis : (config : RedisConfig) → IsBounded redis config → IsUsable config
unfolding IsBounded
IsBounded-redis config (port, index, same) = (port, index, rw (same) tt)

Ensures-mono :
    {A : Type 0} {P Q : A → Type 0} {r : Result A}
    → Ensures P r
    → ((a : A) → P a → Q a)
    → Ensures Q r
Ensures-mono (ensures_ok a h) k = ensures_ok a (k a h)
Ensures-mono (ensures_err e h) k = ensures_err e h

apply_address_lem :
    (scheme : RedisScheme) (config : RedisConfig) (rest : Bytes)
    → IsBounded scheme config
    → Ensures IsUsable (apply_address scheme config rest)
unfolding apply_address IsBounded
apply_address_lem unix config rest (port, index, same) =
    Ensures-if (is_absolute rest) _ _
      (λ path. ensures_ok _ (port, index, rw (same) (absolute rest path))) (λ _. ensures_err _ tt)
apply_address_lem tcp config rest h =
    let user = apply_user config (cut b'@' rest) rest in
    Ensures-mono
      (apply_host_lem tcp user.0 user.1 (apply_user_lem tcp config (cut b'@' rest) rest h))
      IsBounded-tcp
apply_address_lem redis config rest h =
    let user = apply_user config (cut b'@' rest) rest in
    Ensures-mono
      (apply_host_lem redis user.0 user.1 (apply_user_lem redis config (cut b'@' rest) rest h))
      IsBounded-redis

-- Parsing any text ends in an exception or in a configuration whose port has 16 bits, whose index
-- has 32 bits, and whose host is an absolute path where the scheme is `unix://`.
pub parse_redis_url_lem : (url : Bytes) → Ensures IsUsable (parse_redis_url url)
unfolding parse_redis_url AnyBounded
parse_redis_url_lem url = Ensures-bind _ (parse_scheme_lem url) (λ schemed h.
    Ensures-bind _ (apply_query_lem schemed.0 (cut b'?' schemed.1) schemed.1 h)
      (λ queried k. apply_address_lem queried.0.scheme queried.0 queried.1 k))
