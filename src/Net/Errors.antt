-- ===== src/Net/Errors.antt =====
-- src/net_exception.h: the texts of the exceptions, as their constructors build them.
use byzantine_agreement.Common.{ℕ, ◌++◌, Option, none, some, Text, codes, Exception}
use byzantine_agreement.Msg.{decimal}

-- `none` for exceptions of other kinds. `errno` is the C library's, `host` the name looked up.
unfoldable pub network_exception_text : ℕ → Text → Exception → Option Text
network_exception_text errno host Exception.socket_exception =
    some (codes "Could not create UDP Socket: " ++ decimal errno)
network_exception_text errno host Exception.host_not_found_exception =
    some (codes "Could not find host: " ++ host)
network_exception_text errno host Exception.bind_exception =
    some (codes "Could not bind UDP Socket: " ++ decimal errno)
network_exception_text errno host Exception.send_exception =
    some (codes "Could not send data on socket: " ++ decimal errno)
network_exception_text errno host Exception.receive_exception =
    some (codes "Could not receive data on socket: " ++ decimal errno)
network_exception_text errno host e = none
