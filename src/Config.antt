-- ===== src/Config.antt =====
-- backend-service/internal/config/config.go. The environment is a function that gives "" for a
-- variable that is not set.
use Prim.Native.Char.{code}
use electric_power_digital_d.Common.{
  ℕ, ◌+◌, ◌-◌, ◌*◌, String, Bool, true, false, ◌&&◌, ◌||◌, Option, none, some, List, [], ◌∷◌,
  str_eq, if◌then◌else◌, leb, ◌==◌,
}
use electric_power_digital_d.Common.Int.{ℤ, pos, negsuc, int64_max}

abbrev pub Env : Type 0
Env = String → String

abbrev pub codes : String → List ℕ
codes String.[] = []
codes (String.◌∷◌ c s) = code c ∷ codes s

abbrev pub is_digit : ℕ → Bool
is_digit c = leb b'0' c && leb c b'9'

-- The decimal digits at the front of a text: whether there is one, and their value.
unfoldable pub leading_number : Bool → ℕ → List ℕ → Option ℕ
leading_number seen acc [] = if seen then some acc else none
leading_number seen acc (c ∷ cs) =
    let rest = leading_number true (acc * 10 + (c - b'0')) cs in
    if is_digit c then rest else if seen then some acc else none

-- White space that is not a line break.
abbrev is_space : ℕ → Bool
is_space c = c == 32 || c == 9 || c == 11 || c == 12 || c == 13

unfoldable pub skip_space : List ℕ → List ℕ
skip_space [] = []
skip_space (c ∷ cs) = if is_space c then skip_space cs else c ∷ cs

abbrev negative : ℕ → Option ℤ
negative n =
    if n == 0 then some (pos 0) else if leb n (int64_max + 1) then some (negsuc (n - 1)) else none

abbrev positive : ℕ → Option ℤ
positive n = if leb n int64_max then some (pos n) else none

abbrev then_int : (ℕ → Option ℤ) → Option ℕ → Option ℤ
then_int f none = none
then_int f (some n) = f n

abbrev scan_signed : List ℕ → Option ℤ
scan_signed [] = none
scan_signed (c ∷ cs) =
    if c == b'-'
    then then_int negative (leading_number false 0 cs)
    else if c == b'+'
    then then_int positive (leading_number false 0 cs)
    else then_int positive (leading_number false 0 (c ∷ cs))

-- fmt.Sscanf(v, "%d", &out): the text behind the number is not read.
unfoldable pub scan_int : String → Option ℤ
unfolding leading_number skip_space
scan_int v = scan_signed (skip_space (codes v))

unfoldable pub get_env : Env → String → String → String
get_env env key fallback = if str_eq (env key) "" then fallback else env key

abbrev value_or : ℤ → Option ℤ → ℤ
value_or d none = d
value_or d (some n) = n

unfoldable pub get_env_int : Env → String → ℤ → ℤ
unfolding scan_int
get_env_int env key fallback =
    if str_eq (env key) "" then fallback else value_or fallback (scan_int (env key))

unfoldable pub get_env_bool : Env → String → Bool → Bool
get_env_bool env key fallback =
    if str_eq (env key) ""
    then fallback
    else str_eq (env key) "true" || (str_eq (env key) "1" || str_eq (env key) "yes")

pub record Config : Type 0 where
  pub http_addr : String
  pub rate_limit_rps : ℤ
  pub request_timeout_sec : ℤ
  pub grpc_algo_addr : String
  pub grpc_result_addr : String
  pub mysql_dsn : String
  pub redis_addr : String
  pub redis_password : String
  pub redis_db : ℤ
  pub scheme_cache_key : String
  pub progress_cache_key_ns : String
  pub enable_swagger : Bool

unfoldable pub load : Env → Config
unfolding get_env get_env_int get_env_bool
load env = record {
  http_addr = get_env env "HTTP_ADDR" ":8080";
  rate_limit_rps = get_env_int env "RATE_LIMIT_RPS" (pos 100);
  request_timeout_sec = get_env_int env "REQUEST_TIMEOUT_SEC" (pos 30);
  grpc_algo_addr = get_env env "ALGO_GRPC_ADDR" "127.0.0.1:50051";
  grpc_result_addr = get_env env "RESULT_GRPC_ADDR" ":9090";
  mysql_dsn = get_env env "MYSQL_DSN" "root:password@tcp(127.0.0.1:3306)/epdd_db?parseTime=true";
  redis_addr = get_env env "REDIS_ADDR" "127.0.0.1:6379";
  redis_password = get_env env "REDIS_PASSWORD" "";
  redis_db = get_env_int env "REDIS_DB" (pos 0);
  scheme_cache_key = get_env env "SCHEME_CACHE_KEY" "sys:algo:schemes";
  progress_cache_key_ns = get_env env "PROGRESS_KEY_NS" "job:progress:";
  enable_swagger = get_env_bool env "ENABLE_SWAGGER" true;
}
