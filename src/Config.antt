-- ===== src/Config.antt =====
-- src/redis_config.cpp: the connection URL. A step of `parse_redis_url` that changes `config` and
-- `remaining_url` returns both. (The position that `find` returns is used only to cut the string
-- there, so `cut` returns the two sides.)
pub mod Bounds
pub mod RoundTrip
use redisdal.Prelude.{
  ℕ, ◌+◌, ◌-◌, ◌^◌, ◌%◌, Bool, true, false, not, ◌&&◌, ◌||◌, Option, none, some, List, [], ◌∷◌,
  ◌++◌, is_empty, drop, leb, ltb, ◌==◌, if◌then◌else◌,
}
use redisdal.Prelude.Int.{ℤ, pos_part}
use redisdal.Text.{Bytes, text, same_text, starts_with}
use redisdal.Text.Decimal.{begins_with_digit, read_digits}
use redisdal.Errors.{invalid_argument, out_of_range, Result, ok, err, ◌>>=◌}
use redisdal.Serialization.{Errc, no_error, FromChars, from_chars, unsigned}

pub data RedisScheme : Type 0 where
  tcp unix redis : RedisScheme

pub record RedisConfig : Type 0 where
  pub scheme : RedisScheme
  pub host : Bytes
  pub port : ℕ
  pub username : Bytes
  pub password : Bytes
  pub index : ℕ

-- The default constructor.
abbrev pub default_config : RedisConfig
default_config = record {
  scheme = tcp;
  host = text "127.0.0.1";
  port = 6379;
  username = [];
  password = [];
  index = 0;
}

pub record QueryInfo : Type 0 where
  pub username : Bytes
  pub password : Bytes
  pub index : ℕ

abbrev pub default_query : QueryInfo
default_query = record { username = []; password = []; index = 0 }

-- The sides of the first `c`, `substr(0, find(c))` and `substr(find(c) + 1)`; `none` where there
-- is no `c`.
unfoldable pub cut : ℕ → Bytes → Option (Bytes × Bytes)
cut c [] = none
cut c (b ∷ bs) =
    let rest = cut c bs in
    if b == c then some ([], bs) else elim rest [ none ↦ none | some (l, r) ↦ some (b ∷ l, r) ]

-- The matches of the expression ([^=&]+)=([^&]*) in a query, as pairs of its two groups. The
-- search reads a run without '=' and '&'; behind an '=' that ends a run that is not empty it reads
-- a value up to the next '&', and then goes on.
pub data Search : Type 0 where
  in_run : (run : Bytes) → Search
  in_value : (key seen : Bytes) → Search

unfoldable pub search_step : Search → ℕ → List (Bytes × Bytes) × Search
search_step (in_run run) c =
    if c == b'='
    then if is_empty run then ([], in_run []) else ([], in_value run [])
    else if c == b'&'
    then ([], in_run [])
    else ([], in_run (run ++ (c ∷ [])))
search_step (in_value key seen) c =
    if c == b'&' then ((key, seen) ∷ [], in_run []) else ([], in_value key (seen ++ (c ∷ [])))

abbrev last_match : Search → List (Bytes × Bytes)
last_match (in_run run) = []
last_match (in_value key seen) = (key, seen) ∷ []

unfoldable pub matches : Search → Bytes → List (Bytes × Bytes)
unfolding search_step
matches s [] = last_match s
matches s (c ∷ cs) = let (found, s') = search_step s c in found ++ matches s' cs

abbrev is_whole : Errc → Bytes → Bool
is_whole no_error [] = true
is_whole _ _ = false

-- The database index: an `unsigned int` that takes the whole value.
unfoldable pub parse_index : Bytes → Result ℕ
unfolding from_chars
parse_index s =
    let r = from_chars (unsigned 32) s in
    if is_whole r.ec r.rest
    then ok (pos_part r.value)
    else err (invalid_argument (text "Invalid Redis database index"))

-- One round of the loop over the matches.
unfoldable pub apply_param : QueryInfo → Bytes → Bytes → Result QueryInfo
unfolding parse_index
apply_param info key value =
    if same_text key (text "index")
    then (do index ← parse_index value; ok (record info { index = index }))
    else if same_text key (text "db")
    then err (invalid_argument (text "Redis URL parameter 'db' was renamed to 'index'"))
    else if same_text key (text "password") || same_text key (text "auth")
    then ok (record info { password = value })
    else if same_text key (text "username")
    then ok (record info { username = value })
    else ok info

unfoldable pub apply_params : QueryInfo → List (Bytes × Bytes) → Result QueryInfo
unfolding apply_param
apply_params info [] = ok info
apply_params info ((key, value) ∷ params) = do
  info' ← apply_param info key value
  apply_params info' params

unfoldable pub parse_query_params : Bytes → Result QueryInfo
unfolding apply_params matches
parse_query_params query = apply_params default_query (matches (in_run []) query)

-- The scheme, with the port that it implies.
unfoldable pub parse_scheme : Bytes → Result (RedisConfig × Bytes)
unfolding starts_with
parse_scheme url =
    if starts_with url (text "tcp://")
    then ok (record default_config { scheme = tcp }, drop 6 url)
    else if starts_with url (text "redis://")
    then ok (record default_config { scheme = redis }, drop 8 url)
    else if starts_with url (text "unix://")
    then ok (record default_config { scheme = unix; port = 0 }, drop 7 url)
    else err (invalid_argument (text "Invalid Redis URL scheme."))

-- `if (!s.empty()) { old = s; }`
abbrev or_keep : Bytes → Bytes → Bytes
or_keep s old = if is_empty s then old else s

unfoldable pub apply_query :
    RedisConfig → Option (Bytes × Bytes) → Bytes → Result (RedisConfig × Bytes)
unfolding parse_query_params
apply_query config none remaining_url = ok (config, remaining_url)
apply_query config (some (before, query_str)) remaining_url = do
  q_info ← parse_query_params query_str
  ok (
    record config {
      index = q_info.index;
      username = or_keep q_info.username config.username;
      password = or_keep q_info.password config.password;
    },
    before,
  )

-- The user and the password before '@'.
abbrev apply_user_pass : RedisConfig → Bytes → Option (Bytes × Bytes) → RedisConfig
apply_user_pass config user_pass none = record config { username = user_pass }
apply_user_pass config user_pass (some (user, pass)) = record config {
  username = user;
  password = pass;
}

unfoldable pub apply_user : RedisConfig → Option (Bytes × Bytes) → Bytes → RedisConfig × Bytes
unfolding cut
apply_user config none remaining_url = (config, remaining_url)
apply_user config (some (user_pass, after)) remaining_url =
    (apply_user_pass config user_pass (cut b':' user_pass), after)

abbrev is_space : ℕ → Bool
is_space c = c == 32 || leb 9 c && leb c 13

unfoldable pub skip_spaces : Bytes → Bytes
skip_spaces [] = []
skip_spaces (c ∷ cs) = let rest = skip_spaces cs in if is_space c then rest else c ∷ cs

-- `std::stoul` behind the sign: what is after the digits is not looked at, and a minus sign negates
-- the `unsigned long`.
unfoldable pub unsigned_long : Bool → Bytes → Result ℕ
unsigned_long minus digits =
    let n = (read_digits 0 digits).0 in
    if not (begins_with_digit digits)
    then err (invalid_argument (text "stoul"))
    else if ltb (2 ^ 64 - 1) n
    then err (out_of_range (text "stoul"))
    else ok (if minus then (2 ^ 64 - n) % 2 ^ 64 else n)

abbrev signed_long : Bytes → Result ℕ
signed_long [] = unsigned_long false []
signed_long (c ∷ cs) =
    if c == b'-'
    then unsigned_long true cs
    else if c == b'+'
    then unsigned_long false cs
    else unsigned_long false (c ∷ cs)

unfoldable pub stoul : Bytes → Result ℕ
unfolding skip_spaces unsigned_long
stoul s = signed_long (skip_spaces s)

-- `config.port = std::stoul(...)`: the conversion to `unsigned short` wraps.
unfoldable pub parse_port : RedisConfig → Bytes → Result RedisConfig
unfolding stoul
parse_port config s = do n ← stoul s; ok (record config { port = n % 2 ^ 16 })

-- The text behind the closing bracket of an IPv6 address: a port, or anything, which is ignored.
abbrev apply_after_bracket : RedisConfig → Bytes → Result RedisConfig
apply_after_bracket config [] = ok config
apply_after_bracket config (c ∷ cs) = if c == b':' then parse_port config cs else ok config

unfoldable pub apply_ipv6 : RedisConfig → Option (Bytes × Bytes) → Result RedisConfig
unfolding parse_port
apply_ipv6 config none = err (invalid_argument (text "Invalid IPv6 address format in URL."))
apply_ipv6 config (some (address, after)) =
    apply_after_bracket (record config { host = address }) after

unfoldable pub apply_host_port : RedisConfig → Bytes → Option (Bytes × Bytes) → Result RedisConfig
unfolding parse_port
apply_host_port config remaining_url none = ok (record config { host = remaining_url })
apply_host_port config remaining_url (some (host, port)) =
    parse_port (record config { host = host }) port

unfoldable pub apply_host : RedisConfig → Bytes → Result RedisConfig
unfolding cut apply_ipv6 apply_host_port
apply_host config [] = err (invalid_argument (text "Missing host in Redis URL."))
apply_host config (c ∷ cs) =
    if c == b'['
    then apply_ipv6 config (cut b']' cs)
    else apply_host_port config (c ∷ cs) (cut b':' (c ∷ cs))

abbrev is_absolute : Bytes → Bool
is_absolute [] = false
is_absolute (c ∷ cs) = c == b'/'

-- What follows the query, by scheme.
unfoldable pub apply_address : RedisScheme → RedisConfig → Bytes → Result RedisConfig
unfolding cut apply_user apply_host
apply_address unix config remaining_url =
    if is_absolute remaining_url
    then ok (record config { host = remaining_url })
    else err (invalid_argument (text "Unix socket path must be absolute."))
apply_address _ config remaining_url =
    let (config', rest) = apply_user config (cut b'@' remaining_url) remaining_url in
    apply_host config' rest

unfoldable pub parse_redis_url : Bytes → Result RedisConfig
unfolding parse_scheme cut apply_query apply_address
parse_redis_url url = do
  schemed ← parse_scheme url
  queried ← apply_query schemed.0 (cut b'?' schemed.1) schemed.1
  apply_address queried.0.scheme queried.0 queried.1
