-- ===== src/Tests/Ports.antt =====
-- A port that a server can be asked for.
use lc_extension.Base.{◌≡◌, some, decimal}
use lc_extension.Server.{listen_address}
use lc_extension.Server.Ports.{listen_address-decimal}

listen_address-decimal_example : listen_address "8080" ≡ some ":8080"
unfolding decimal
listen_address-decimal_example = listen_address-decimal 8080
