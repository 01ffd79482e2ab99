-- ===== src/Config/RoundTrip.antt =====
-- A configuration, written as a URL and parsed by src/redis_config.cpp.
use redisdal.Prelude.{
  ℕ, ◌-◌, ◌^◌, ◌<◌, ◌≢◌, ◌%◌, true, false, none, some, [], ◌∷◌, ◌++◌, All, ◌≡◌, refl, ◌∙◌,
  append_assoc, append-nil, arith, ◌==◌, ltb,
}
use redisdal.Text.{Bytes, text, starts_with, same_text_refl}
use redisdal.Text.Decimal.{
  decimal, is_digit, read_digits, begins_with_digit, read_digits-decimal, decimal-begins, IsDigit,
  decimal-IsDigit,
}
use redisdal.Errors.{ok}
use redisdal.Serialization.RoundTrip.{from_chars-decimal}
use redisdal.Config.{
  RedisConfig, default_config, default_query, cut, in_run, in_value, search_step, matches,
  parse_index, apply_param, apply_params, parse_query_params, is_space, tcp, parse_scheme,
  apply_query, apply_user, skip_spaces, unsigned_long, stoul, parse_port, apply_host_port,
  apply_host, apply_address, parse_redis_url,
}

abbrev Avoids : ℕ → Bytes → Type 0
Avoids c s = All (λ d. (d == c) ≡ false) s

cut-Avoids : (c : ℕ) (a b : Bytes) → Avoids c a → cut c (a ++ (c ∷ b)) ≡ some (a, b)
unfolding cut
cut-Avoids c [] b h = rw (same c)
  where
    same : (c : ℕ) → (c == c) ≡ true
    same c = ground arith
cut-Avoids c (d ∷ a) b (p, h) = rw (p, cut-Avoids c a b h)

cut-none : (c : ℕ) (a : Bytes) → Avoids c a → cut c a ≡ none
unfolding cut
cut-none c [] h = refl
cut-none c (d ∷ a) (p, h) = rw (p, cut-none c a h)

-- A value goes on to the end of a query without '&'.
matches-value :
    (key seen s : Bytes) → Avoids b'&' s → matches (in_value key seen) s ≡ (key, seen ++ s) ∷ []
unfolding matches search_step
matches-value key seen [] h = rw (append-nil seen)
matches-value key seen (c ∷ s) (p, h) =
    rw (p) (matches-value key (seen ++ (c ∷ [])) s h ∙ rw (append_assoc seen (c ∷ []) s))

digits-Avoids : (c : ℕ) (s : Bytes) → is_digit c ≡ false → All IsDigit s → Avoids c s
digits-Avoids c [] h k = tt
digits-Avoids c (d ∷ s) h (p, k) = (other d c p h, digits-Avoids c s h k)
  where
    other : (d c : ℕ) → IsDigit d → is_digit c ≡ false → (d == c) ≡ false
    other d c p h = ground arith

decimal-Avoids : (c n : ℕ) → is_digit c ≡ false → Avoids c (decimal n)
decimal-Avoids c n h = digits-Avoids c (decimal n) h (decimal-IsDigit n)

-- A host name: not empty, and without the characters that delimit the parts of a URL.
abbrev IsHostByte : ℕ → Type 0
IsHostByte c =
    ((c == b':') ≡ false) × ((c == b'?') ≡ false) × ((c == b'@') ≡ false) × ((c == b'[') ≡ false)

abbrev pub IsHost : Bytes → Type 0
IsHost host = (host ≢ []) × All IsHostByte host

abbrev pub url_of : Bytes → ℕ → ℕ → Bytes
url_of host port index =
    text "tcp://" ++ ((host ++ (b':' ∷ decimal port)) ++ (b'?' ∷ (text "index=" ++ decimal index)))

query_matches :
    (s : Bytes) → Avoids b'&' s → matches (in_run []) (text "index=" ++ s) ≡ (text "index", s) ∷ []
unfolding text matches search_step
query_matches s h = matches-value _ [] s h

digit_tests :
    (c : ℕ)
    → is_digit c ≡ true
    → (is_space c ≡ false) × ((c == b'-') ≡ false) × ((c == b'+') ≡ false)
digit_tests c h = (ground arith, ground arith, ground arith)

stoul-digit : (s : Bytes) → begins_with_digit s ≡ true → stoul s ≡ unsigned_long false s
unfolding stoul skip_spaces begins_with_digit
stoul-digit [] h = cc
stoul-digit (c ∷ cs) h = let (space, minus, plus) = digit_tests c h in rw (space, minus, plus)

read-decimal : (n : ℕ) → read_digits 0 (decimal n) ≡ (n, [])
unfolding read_digits
read-decimal n = rw (append-nil (decimal n)) at (read_digits-decimal n [])

begins-decimal : (n : ℕ) → begins_with_digit (decimal n) ≡ true
begins-decimal n = rw (append-nil (decimal n)) at (decimal-begins n [])

stoul-decimal : (n : ℕ) → n < 2 ^ 64 → stoul (decimal n) ≡ ok n
unfolding unsigned_long
stoul-decimal n h =
    rw (stoul-digit (decimal n) (begins-decimal n), begins-decimal n, read-decimal n, fits n h)
  where
    fits : (n : ℕ) → n < 2 ^ 64 → ltb (2 ^ 64 - 1) n ≡ false
    fits n h = ground arith

parse_index-decimal : (n : ℕ) → n < 2 ^ 32 → parse_index (decimal n) ≡ ok n
unfolding parse_index
parse_index-decimal n h = rw (from_chars-decimal 32 n h)

parse_query-decimal :
    (n : ℕ)
    → n < 2 ^ 32
    → parse_query_params (text "index=" ++ decimal n) ≡ ok (record default_query { index = n })
unfolding parse_query_params apply_params apply_param
parse_query-decimal n h = rw (
  query_matches (decimal n) (decimal-Avoids b'&' n (ground arith)),
  same_text_refl (text "index"),
  parse_index-decimal n h,
)

host-Avoids :
    (host : Bytes) → All IsHostByte host → Avoids b':' host × Avoids b'?' host × Avoids b'@' host
host-Avoids [] h = (tt, tt, tt)
host-Avoids (c ∷ cs) ((colon, query, at_sign, bracket), h) =
    let (colons, queries, at_signs) = host-Avoids cs h in
    ((colon, colons), (query, queries), (at_sign, at_signs))

parse_port-decimal :
    (config : RedisConfig) (port : ℕ)
    → port < 2 ^ 16
    → parse_port config (decimal port) ≡ ok (record config { port = port })
unfolding parse_port
parse_port-decimal config port h =
    let e : port % 2 ^ 16 ≡ port = omega arith in rw (stoul-decimal port (omega arith), e)

apply_host-decimal :
    (config : RedisConfig) (host : Bytes) (port : ℕ)
    → IsHost host
    → port < 2 ^ 16
    → apply_host config (host ++ (b':' ∷ decimal port))
      ≡ ok (record config { host = host; port = port })
unfolding apply_host apply_host_port
apply_host-decimal config [] port (nonempty, h) k = absurd (nonempty refl)
apply_host-decimal config (c ∷ cs) port (nonempty, h) k = rw (
  h.0.3,
  cut-Avoids b':' (c ∷ cs) (decimal port) (host-Avoids (c ∷ cs) h).0,
  parse_port-decimal (record config { host = c ∷ cs }) port k,
)

Avoids-++ : (c : ℕ) (xs ys : Bytes) → Avoids c xs → Avoids c ys → Avoids c (xs ++ ys)
Avoids-++ c [] ys h k = k
Avoids-++ c (x ∷ xs) ys (p, h) k = (p, Avoids-++ c xs ys h k)

parse_scheme-tcp :
    (rest : Bytes)
    → parse_scheme (text "tcp://" ++ rest) ≡ ok (record default_config { scheme = tcp }, rest)
unfolding parse_scheme text starts_with
parse_scheme-tcp rest = refl

-- A host name without the delimiters of a URL, a port of 16 bits and an index of 32 bits, written
-- as `tcp://host:port?index=N`, are what `parse_redis_url` returns for it, and no user is set.
pub parse_redis_url-url_of :
    (host : Bytes) (port index : ℕ)
    → IsHost host
    → port < 2 ^ 16
    → index < 2 ^ 32
    → parse_redis_url (url_of host port index)
      ≡ ok (record default_config { host = host; port = port; index = index })
unfolding parse_redis_url apply_query apply_address apply_user
parse_redis_url-url_of host port index h p i =
    rw
      (
        parse_scheme-tcp (address ++ (b'?' ∷ query)),
        cut-Avoids b'?' address query (
            Avoids-++ b'?' host (b':' ∷ decimal port) avoided.1
              (refl, decimal-Avoids b'?' port (ground arith))),
        parse_query-decimal index i,
        cut-none b'@' address (
            Avoids-++ b'@' host (b':' ∷ decimal port) avoided.2
              (refl, decimal-Avoids b'@' port (ground arith))),
      )
      (apply_host-decimal (record default_config { index = index }) host port h p)
  where
    address : Bytes
    address = host ++ (b':' ∷ decimal port)

    query : Bytes
    query = text "index=" ++ decimal index

    avoided : Avoids b':' host × Avoids b'?' host × Avoids b'@' host
    avoided = host-Avoids host h.1
