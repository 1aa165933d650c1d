-- ===== src/Config/Pool/Expansion.antt =====
-- The combinatorial expansion of internal/config/helpers.go: where each combination stands.
use netping.Common.{
  ℕ, zero, suc, ◌+◌, ◌*◌, ◌<◌, ◌≡◌, refl, ap, ◌∙◌, Str, some, List, [], ◌∷◌, ◌++◌, map, length,
  length-append, get_elem?, arith,
}
use netping.Consts.{Protocol}
use netping.Config.Pool.{one_target, product_port, product_host, product_hosts}

module _ {ℓ} {A : Type ℓ} where
  get_elem?_bound : (xs : List A) (i : ℕ) {a : A} → get_elem? xs i ≡ some a → i < length xs
  get_elem?_bound [] i h = cc
  get_elem?_bound (x ∷ xs) zero h = omega arith
  get_elem?_bound (x ∷ xs) (suc i) h = omega (arith, get_elem?_bound xs i h)

  get_elem?-append_left :
      (xs ys : List A) (i : ℕ) {a : A} → get_elem? xs i ≡ some a → get_elem? (xs ++ ys) i ≡ some a
  get_elem?-append_left [] ys i h = cc
  get_elem?-append_left (x ∷ xs) ys zero h = h
  get_elem?-append_left (x ∷ xs) ys (suc i) h = get_elem?-append_left xs ys i h

  get_elem?-append_right :
      (xs ys : List A) (i : ℕ) → get_elem? (xs ++ ys) (length xs + i) ≡ get_elem? ys i
  get_elem?-append_right [] ys i = let e : 0 + i ≡ i = omega arith in rw e refl
  get_elem?-append_right (x ∷ xs) ys i =
      let e : suc (length xs) + i ≡ suc (length xs + i) = omega arith in
      rw e (get_elem?-append_right xs ys i)

module _ {ℓ κ} {A : Type ℓ} {B : Type κ} (f : A → B) where
  length-map : (xs : List A) → length (map f xs) ≡ length xs
  length-map [] = refl
  length-map (x ∷ xs) = ap suc (length-map xs)

  get_elem?-map :
      (xs : List A) (i : ℕ) {a : A} → get_elem? xs i ≡ some a → get_elem? (map f xs) i ≡ some (f a)
  get_elem?-map [] i h = cc
  get_elem?-map (x ∷ xs) zero h = cc
  get_elem?-map (x ∷ xs) (suc i) h = get_elem?-map xs i h

block : (i n k : ℕ) → suc i * n + k ≡ n + (i * n + k)
block i n k = omega arith

-- A list of blocks of one length, for the elements of another list.
module _ {ℓ κ} {A : Type ℓ} {B : Type κ} (f : A → List B) (n : ℕ) where
  unfoldable blocks : List A → List B
  blocks [] = []
  blocks (x ∷ xs) = f x ++ blocks xs

  length-blocks : ((x : A) → length (f x) ≡ n) → (xs : List A) → length (blocks xs) ≡ length xs * n
  unfolding blocks
  length-blocks same [] = omega arith
  length-blocks same (x ∷ xs) =
      omega (arith, length-append (f x) (blocks xs), same x, length-blocks same xs)

  moved :
      (x y : A) (k : ℕ) {b : B}
      → some x ≡ some y
      → get_elem? (f y) k ≡ some b
      → get_elem? (f x) k ≡ some b
  moved x y k h g = cc

  get_elem?-blocks :
      ((x : A) → length (f x) ≡ n)
      → (xs : List A) (i k : ℕ) {x : A} {b : B} → get_elem? xs i ≡ some x
      → get_elem? (f x) k ≡ some b
      → get_elem? (blocks xs) (i * n + k) ≡ some b
  unfolding blocks
  get_elem?-blocks same [] i k h g = cc
  get_elem?-blocks same (x ∷ xs) zero k h g =
      let e : 0 * n + k ≡ k = omega arith in
      rw e (get_elem?-append_left (f x) (blocks xs) k (moved x _ k h g))
  get_elem?-blocks same (x ∷ xs) (suc i) k h g =
      let e : suc i * n + k ≡ length (f x) + (i * n + k) = omega (arith, same x) in
      rw e (get_elem?-append_right (f x) (blocks xs) (i * n + k) ∙ get_elem?-blocks same xs i k h g)

product_host-blocks :
    (service host : Str) (protos : List Protocol) (ports : List ℕ)
    → product_host service host protos ports
      ≡ blocks (λ port. product_port service host port protos) (length protos) ports
unfolding product_host blocks
product_host-blocks service host protos [] = refl
product_host-blocks service host protos (port ∷ ports) =
    ap (λ ts. product_port service host port protos ++ ts)
      (product_host-blocks service host protos ports)

product_hosts-blocks :
    (service : Str) (protos : List Protocol) (ports : List ℕ) (hosts : List Str)
    → product_hosts service protos ports hosts
      ≡ blocks (λ host. product_host service host protos ports) (length ports * length protos) hosts
unfolding product_hosts blocks
product_hosts-blocks service protos ports [] = refl
product_hosts-blocks service protos ports (host ∷ hosts) =
    ap (λ ts. product_host service host protos ports ++ ts)
      (product_hosts-blocks service protos ports hosts)

length-product_port :
    (service host : Str) (protos : List Protocol) (port : ℕ)
    → length (product_port service host port protos) ≡ length protos
unfolding product_port
length-product_port service host protos port = length-map (one_target service host port) protos

length-product_host :
    (service : Str) (protos : List Protocol) (ports : List ℕ) (host : Str)
    → length (product_host service host protos ports) ≡ length ports * length protos
length-product_host service protos ports host = rw (product_host-blocks service host protos ports) (
    length-blocks (λ port. product_port service host port protos) (length protos)
      (length-product_port service host protos) ports)

length-product_hosts :
    (service : Str) (protos : List Protocol) (ports : List ℕ) (hosts : List Str)
    → length (product_hosts service protos ports hosts)
      ≡ length hosts * (length ports * length protos)
length-product_hosts service protos ports hosts =
    rw (product_hosts-blocks service protos ports hosts) (
      length-blocks (λ host. product_host service host protos ports) (length ports * length protos)
        (length-product_host service protos ports) hosts)

place : (i j k p q : ℕ) → (i * p + j) * q + k ≡ i * (p * q) + (j * q + k)
place i j k p q = omega arith

get_elem?-product_host :
    (service : Str) (protos : List Protocol) (ports : List ℕ) (j k : ℕ) (host : Str) {port : ℕ}
    {proto : Protocol}
    → get_elem? ports j ≡ some port
    → get_elem? protos k ≡ some proto
    → get_elem? (product_host service host protos ports) (j * length protos + k)
      ≡ some (one_target service host port proto)
get_elem?-product_host service protos ports j k host {port} g f =
    rw (product_host-blocks service host protos ports) (
      get_elem?-blocks (λ p. product_port service host p protos) (length protos)
        (length-product_port service host protos) ports j k g
        (unfold product_port in get_elem?-map (one_target service host port) protos k f))

-- The Cartesian product of the hosts, ports and protocols: with `P` ports and `Q` protocols, the
-- target for the host number i, the port number j and the protocol number k stands at the place
-- (i * P + j) * Q + k, and there are no more targets than the three numbers multiplied.
pub product_hosts_lem :
    (service : Str) (protos : List Protocol) (ports : List ℕ) (hosts : List Str) (i j k : ℕ)
    (host : Str) (port : ℕ) (proto : Protocol)
    → get_elem? hosts i ≡ some host
    → get_elem? ports j ≡ some port
    → get_elem? protos k ≡ some proto
    → (get_elem?
          (product_hosts service protos ports hosts)
          ((i * length ports + j) * length protos + k)
        ≡ some (one_target service host port proto))
      × (length (product_hosts service protos ports hosts)
          ≡ length hosts * (length ports * length protos))
product_hosts_lem service protos ports hosts i j k host port proto h g f = (
  rw (place i j k (length ports) (length protos), product_hosts-blocks service protos ports hosts)
      (get_elem?-blocks (λ x. product_host service x protos ports) (length ports * length protos)
        (length-product_host service protos ports) hosts i (j * length protos + k) h
        (get_elem?-product_host service protos ports j k host g f)),
  length-product_hosts service protos ports hosts,
)
