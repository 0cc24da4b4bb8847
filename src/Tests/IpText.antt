-- ===== src/Tests/IpText.antt =====
-- The text of addresses and the interfaces, at concrete inputs.
use protocol_stack.Base.Registry.{find}
use protocol_stack.Util.ByteOrder.{load32, little}
use protocol_stack.Util.Text.{
  is_space, is_out_of_byte, digit_value, read_digits, skip_prefix, skip_space, strtol_digits,
  digit_char, strtol_signed, to_digits, strtol, print_decimal, snprintf,
}
use protocol_stack.Ip.Register.{
  complement, addr_value, null, new_netif, add_default, ip_netif_register, NetifChunk,
}
use protocol_stack.Ethernet.Address.{
  ethernet_addr_pton-ntop, ethernet_addr_str_len, ethernet_addr_ntop, ethernet_addr_pton,
}
use protocol_stack.Ip.Address.{
  is_separated, ip_addr_pton-ntop, pton_loop, ip_addr_str_len, ip_addr_pton, ip_addr_ntop,
}
use protocol_stack.Base.{arith, ◌≡◌, replicate, List, ◌∷◌, refl, false, true, some, [], ℕ}
use protocol_stack.Net.{netdev_add_netif, Netif, Netdev}
use protocol_stack.Tests.Data.{dev_b, netif_b}

-- "192.168.33.10"
abbrev text_b : List ℕ
text_b = ip_addr_ntop 192 168 33 10 ip_addr_str_len

text_b_runs :
    text_b
    ≡ b'1' ∷ b'9' ∷ b'2' ∷ b'.' ∷ b'1' ∷ b'6' ∷ b'8' ∷ b'.' ∷ b'3' ∷ b'3' ∷ b'.' ∷ b'1' ∷ b'0' ∷ []
unfolding ip_addr_ntop snprintf print_decimal to_digits digit_char
text_b_runs = refl

ip_addr_pton-ntop_example :
    ip_addr_pton (ip_addr_ntop 192 168 33 10 ip_addr_str_len) (9 ∷ 9 ∷ 9 ∷ 9 ∷ [])
    ≡ (true, 192 ∷ 168 ∷ 33 ∷ 10 ∷ [])
ip_addr_pton-ntop_example =
    ip_addr_pton-ntop 192 168 33 10 9 9 9 9 (omega arith) (omega arith) (omega arith) (omega arith)

-- A number over 255, and a space and a sign, which `strtol` takes.
pton_runs :
    (ip_addr_pton
        (b'1' ∷ b'.' ∷ b'2' ∷ b'5' ∷ b'6' ∷ b'.' ∷ b'3' ∷ b'.' ∷ b'4' ∷ [])
        (9 ∷ 9 ∷ 9 ∷ 9 ∷ [])
      ≡ (false, 1 ∷ 9 ∷ 9 ∷ 9 ∷ []))
    × (ip_addr_pton
          (b' ' ∷ b'1' ∷ b'.' ∷ b'+' ∷ b'2' ∷ b'.' ∷ b'3' ∷ b'.' ∷ b'4' ∷ [])
          (9 ∷ 9 ∷ 9 ∷ 9 ∷ [])
        ≡ (true, 1 ∷ 2 ∷ 3 ∷ 4 ∷ []))
unfolding ip_addr_pton pton_loop strtol strtol_signed strtol_digits skip_space skip_prefix
    read_digits digit_value is_out_of_byte is_separated is_space
pton_runs = (refl, refl)

ethernet_addr_pton-ntop_example :
    ethernet_addr_pton
      (ethernet_addr_ntop (some (2 ∷ 0 ∷ 0 ∷ 0 ∷ 171 ∷ 10 ∷ [])) ethernet_addr_str_len)
      (some (9 ∷ 9 ∷ 9 ∷ 9 ∷ 9 ∷ 9 ∷ []))
    ≡ (true, some (2 ∷ 0 ∷ 0 ∷ 0 ∷ 171 ∷ 10 ∷ []))
ethernet_addr_pton-ntop_example =
    ethernet_addr_pton-ntop 2 0 0 0 171 10 9 9 9 9 9 9
      (omega arith, (omega arith, (omega arith, (omega arith, (omega arith, (omega arith, tt))))))

abbrev chunk : NetifChunk
chunk = record { address = 200; old_unicast = replicate 4 9; old_netmask = replicate 4 9 }

abbrev bare : Netdev
bare = record dev_b { ifs = [] }

abbrev text_mask : List ℕ
text_mask = ip_addr_ntop 255 255 0 0 ip_addr_str_len

-- The interface of the tests is the one that the texts of its addresses give.
ip_netif_register_runs :
    (ip_netif_register little (some chunk) bare text_b text_mask [] null).returned ≡ some netif_b
unfolding ip_netif_register add_default new_netif ip_addr_ntop snprintf print_decimal to_digits
    digit_char ip_addr_pton pton_loop strtol strtol_signed strtol_digits skip_space skip_prefix
    read_digits digit_value is_out_of_byte is_separated is_space netdev_add_netif find addr_value
    complement load32
ip_netif_register_runs = refl
