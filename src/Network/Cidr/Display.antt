-- ===== src/Network/Cidr/Display.antt =====
-- The text of a range: crates/jiji-network/src/cidr.rs, `impl Display for Ipv4Cidr`. How the standard
-- library prints bytes and addresses is written out.
use Prim.Native.String.{◌++◌, slice}
use jiji.Common.{ℕ, ◌+◌, ◌/◌, ◌%◌, String, ltb, if◌then◌else◌}
use jiji.Network.Cidr.{Ipv4Addr, Ipv4Cidr}

-- A decimal or hexadecimal digit.
abbrev pub digit : ℕ → String
digit n = slice "0123456789abcdef" n (n + 1)

-- A byte in decimal.
unfoldable pub show_byte : ℕ → String
show_byte n =
    if ltb n 10
    then digit n
    else if ltb n 100
    then digit (n / 10) ++ digit (n % 10)
    else digit (n / 100) ++ (digit (n / 10 % 10) ++ digit (n % 10))

unfoldable pub show_address : Ipv4Addr → String
show_address a =
    show_byte (a / 16777216)
    ++ ("."
        ++ (show_byte (a / 65536 % 256)
            ++ ("." ++ (show_byte (a / 256 % 256) ++ ("." ++ show_byte (a % 256))))))

unfoldable pub to_string : Ipv4Cidr → String
to_string c = show_address c.network ++ ("/" ++ show_byte c.prefix)
