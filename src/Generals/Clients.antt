-- ===== src/Generals/Clients.antt =====
-- `ClientsForProcessList` and `ClientForId` of src/general.cc: the clients of a process list.
use byzantine_agreement.Common.{
  ℕ, zero, suc, ◌≡◌, refl, inl, inr, arith, true, [], ◌∷◌, some, get_elem?, list_eq→eq,
  list_eq_self, ok, >>=-eq-ok, Option-cases, ok-injective, subst,
}
use byzantine_agreement.Net.{Address, address_eq}
use byzantine_agreement.Udp.{Kernel, Client, new_client}
use byzantine_agreement.Behavior.{MaliciousBehavior}
use byzantine_agreement.Generals.Base.{
  ProcessList, UdpClientMap, General, ack_timeout, find_client, emplace, add_clients,
  clients_for_process_list, new_general, client_for_id,
}

pub address_eq→eq : (a b : Address) → address_eq a b ≡ true → a ≡ b
unfolding address_eq
address_eq→eq a b h = ground (arith, list_eq→eq a.hostname b.hostname)

pub address_eq_self : (a : Address) → address_eq a a ≡ true
unfolding address_eq
address_eq_self a = ground (arith, list_eq_self a.hostname)

-- Every client of the map was made for its address.
abbrev IsMade : Kernel → UdpClientMap → Type 0
IsMade k m =
    (b : Address) (d : Client) → find_client b m ≡ some d → new_client k b ack_timeout ≡ ok d

emplace-IsMade :
    (k : Kernel) (a : Address) (c : Client) (m : UdpClientMap)
    → new_client k a ack_timeout ≡ ok c
    → IsMade k m
    → IsMade k (emplace a c m)
unfolding emplace find_client
emplace-IsMade k a c m e h b d q = ground (arith, h b d, address_eq→eq a b)

find_client-emplace_old :
    (b a : Address) (c d : Client) (m : UdpClientMap)
    → find_client b m ≡ some d
    → find_client b (emplace a c m) ≡ some d
unfolding emplace find_client
find_client-emplace_old b a c d m e = ground (arith, e, address_eq→eq a b)

find_client-emplace_self :
    (a : Address) (c : Client) (m : UdpClientMap)
    → (d : Client) × (find_client a (emplace a c m) ≡ some d)
unfolding emplace find_client
find_client-emplace_self a c m = elim (Option-cases (find_client a m)) [
  | inl e ↦ (c, ground (arith, e, address_eq_self a))
  | inr (d, e) ↦ (d, ground (arith, e))
]

add_clients-IsMade :
    (k : Kernel) (ps : ProcessList) (m m' : UdpClientMap)
    → add_clients k ps m ≡ ok m'
    → IsMade k m
    → IsMade k m'
unfolding add_clients
add_clients-IsMade k [] m m' e h = subst (IsMade k) (ok-injective e) h
add_clients-IsMade k (a ∷ ps) m m' e h =
    let (c, e₁, e₂) = >>=-eq-ok (new_client k a ack_timeout) _ e in
    add_clients-IsMade k ps (emplace a c m) m' e₂ (emplace-IsMade k a c m e₁ h)

add_clients_old :
    (k : Kernel) (ps : ProcessList) (m m' : UdpClientMap) (b : Address) (d : Client)
    → add_clients k ps m ≡ ok m'
    → find_client b m ≡ some d
    → find_client b m' ≡ some d
unfolding add_clients
add_clients_old k [] m m' b d e h = subst (λ n. find_client b n ≡ some d) (ok-injective e) h
add_clients_old k (a ∷ ps) m m' b d e h =
    let (c, e₁, e₂) = >>=-eq-ok (new_client k a ack_timeout) _ e in
    add_clients_old k ps (emplace a c m) m' b d e₂ (find_client-emplace_old b a c d m h)

add_clients_all :
    (k : Kernel) (ps : ProcessList) (m m' : UdpClientMap) (pid : ℕ) (a : Address)
    → add_clients k ps m ≡ ok m'
    → get_elem? ps pid ≡ some a
    → (d : Client) × (find_client a m' ≡ some d)
unfolding add_clients
add_clients_all k [] m m' pid a e h = cc
add_clients_all k (b ∷ ps) m m' zero a e h =
    let (c, e₁, e₂) = >>=-eq-ok (new_client k b ack_timeout) _ e in
    let (d, q) = find_client-emplace_self b c m in
    let same : b ≡ a = cc in
    (
      d,
      subst (λ t. find_client t m' ≡ some d) same
          (add_clients_old k ps (emplace b c m) m' b d e₂ q),
    )
add_clients_all k (b ∷ ps) m m' (suc pid) a e h =
    let (c, e₁, e₂) = >>=-eq-ok (new_client k b ack_timeout) _ e in
    add_clients_all k ps (emplace b c m) m' pid a e₂ h

nothing-IsMade : (k : Kernel) → IsMade k []
unfolding find_client
nothing-IsMade k b d r = cc

-- Once a general is built, every process id of its list has a client, one that was made for that
-- process's address.
pub new_general-client_for_id :
    (k : Kernel) (ps : ProcessList) (id faulty : ℕ) (b : MaliciousBehavior) (g : General) (pid : ℕ)
    (a : Address)
    → new_general k ps id faulty b ≡ ok g
    → get_elem? ps pid ≡ some a
    → (c : Client) × (client_for_id g pid ≡ ok c) × (new_client k a ack_timeout ≡ ok c)
unfolding new_general clients_for_process_list client_for_id
new_general-client_for_id k ps id faulty b g pid a e h =
    let (m, e₁, e₂) = >>=-eq-ok (add_clients k ps []) _ e in
    let (c, q) = add_clients_all k ps [] m pid a e₁ h in
    (
      c,
      subst (λ t. client_for_id t pid ≡ ok c) (ok-injective e₂) (rw (h, q)),
      add_clients-IsMade k ps [] m e₁ (nothing-IsMade k) a c q,
    )

pub new_general_inv :
    (k : Kernel) (ps : ProcessList) (id faulty : ℕ) (b : MaliciousBehavior) (g : General)
    → new_general k ps id faulty b ≡ ok g
    → (g.processes ≡ ps) × (g.round ≡ 0)
unfolding new_general
new_general_inv k ps id faulty b g e =
    let (m, e₁, e₂) = >>=-eq-ok (clients_for_process_list k ps) _ e in
    subst (λ (t : General). (t.processes ≡ ps) × (t.round ≡ 0)) (ok-injective e₂) (refl, refl)
