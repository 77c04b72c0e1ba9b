-- ===== src/Ws/Counts.antt =====
-- backend-service/internal/ws/hub.go: how often a client stands in the registry, before and after
-- the operations on the maps.
use electric_power_digital_d.Common.{
  ℕ, ◌+◌, ◌≤◌, String, true, List, [], ◌∷◌, ◌++◌, if◌then◌else◌, arith, ◌≡◌, ◌==◌,
}
use electric_power_digital_d.Ws.Hub.{
  Registry, contains, members, add_member, drop_client, keep_set, drop_member, all_clients,
}

abbrev pub hit : ℕ → ℕ → ℕ
hit x c = if x == c then 1 else 0

unfoldable pub count : ℕ → List ℕ → ℕ
count x [] = 0
count x (c ∷ cs) = hit x c + count x cs

pub count-append : (x : ℕ) (cs ds : List ℕ) → count x (cs ++ ds) ≡ count x cs + count x ds
unfolding count
count-append x [] ds = omega arith
count-append x (c ∷ cs) ds = ground (arith, count-append x cs ds)

pub contains-count : (c : ℕ) (cs : List ℕ) → contains c cs ≡ true → 1 ≤ count c cs
unfolding count
contains-count c [] h = ground arith
contains-count c (x ∷ xs) h = ground (arith, contains-count c xs)

count-drop_client :
    (c : ℕ) (cs : List ℕ) (x : ℕ)
    → contains c cs ≡ true
    → count x (drop_client c cs) + hit x c ≡ count x cs
unfolding count drop_client
count-drop_client c [] x h = ground arith
count-drop_client c (y ∷ ys) x h = ground (arith, count-drop_client c ys x)

pub count-keep_set :
    (x : ℕ) (k : String) (cs : List ℕ) (m : Registry)
    → count x (all_clients (keep_set k cs m)) ≡ count x cs + count x (all_clients m)
unfolding count
count-keep_set x k [] m = omega arith
count-keep_set x k (c ∷ cs) m = count-append x (c ∷ cs) (all_clients m)

pub count-drop_member :
    (k : String) (c : ℕ) (m : Registry) (x : ℕ)
    → contains c (members k m) ≡ true
    → count x (all_clients (drop_member k c m)) + hit x c ≡ count x (all_clients m)
unfolding drop_member
count-drop_member k c [] x h = ground arith
count-drop_member k c ((j, cs) ∷ m) x h = ground (
  arith,
  count-keep_set x j (drop_client c cs) m,
  count-append x cs (all_clients m),
  count-append x cs (all_clients (drop_member k c m)),
  count-drop_client c cs x,
  count-drop_member k c m x,
)

pub members-count :
    (c : ℕ) (k : String) (m : Registry) → count c (members k m) ≤ count c (all_clients m)
unfolding count
members-count c k [] = ground arith
members-count c k ((j, cs) ∷ m) =
    ground (arith, count-append c cs (all_clients m), members-count c k m)

pub count-add_member :
    (k : String) (c : ℕ) (m : Registry) (x : ℕ)
    → count x (all_clients (add_member k c m)) ≤ hit x c + count x (all_clients m)
unfolding count add_member
count-add_member k c [] x = ground arith
count-add_member k c ((j, cs) ∷ m) x = ground (
  arith,
  count-append x cs (all_clients m),
  count-append x (c ∷ cs) (all_clients m),
  count-append x cs (all_clients (add_member k c m)),
  count-add_member k c m x,
)
