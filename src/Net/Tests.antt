-- ===== src/Net/Tests.antt =====
-- The theorem on addresses at a concrete input, and the ports that are read.
use byzantine_agreement.Common.{◌≡◌, refl, arith, none, ok, throw, Exception, codes}
use byzantine_agreement.Common.Int.{to_u16}
use byzantine_agreement.Net.{Address, show_address, address_with_default_port, find_colon, stoi}
use byzantine_agreement.Net.Read.{address_with_default_port-show_address}

abbrev xinu : Address
xinu = record { hostname = codes "xinu01"; port = 1234 }

address_with_default_port-show_address_example :
    address_with_default_port (show_address xinu) none ≡ ok xinu
address_with_default_port-show_address_example =
    address_with_default_port-show_address xinu none refl (omega arith)

-- A port that does not fit 16 bits is reduced, and not refused.
large_port :
    address_with_default_port (codes "h:70000") none
    ≡ ok (record { hostname = codes "h"; port = 4464 })
unfolding address_with_default_port find_colon stoi to_u16
large_port = refl

no_port : address_with_default_port (codes "h") none ≡ throw Exception.invalid_argument
unfolding address_with_default_port find_colon
no_port = refl
