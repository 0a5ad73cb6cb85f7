-- ===== src/Address/Bounds.antt =====
-- Which of the buffers are large enough, and what they hold.
use mathlib.Core.List.{append_assoc}
use swap_it_registry_module.Prelude.{
  ℕ, zero, suc, ◌+◌, ◌<◌, ◌≤◌, ◌≡◌, ◌∙◌, ap, sym, refl, ◌↔◌, true, false, List, [], ◌∷◌, ◌++◌,
  Bytes, codes, length, take, length-append, arith,
}
use swap_it_registry_module.Buffer.{Buffer, calloc, strcpy, strcat}
use swap_it_registry_module.Address.{
  create_server_address, scheme, complete_url, connection_url, json_string, curr_size, appended,
  for_each_part, key_address, key_port, key_module_type, quotation_mark, first_part, last_part,
}

take-of_le {ℓ} : {A : Type ℓ} (n : ℕ) (xs : List A) → length xs ≤ n → take n xs ≡ xs
take-of_le zero [] h = refl
take-of_le zero (x ∷ xs) h = absurd (omega arith)
take-of_le (suc n) [] h = refl
take-of_le (suc n) (x ∷ xs) h = rw (take-of_le n xs (omega arith))

-- The address of a server is `address:port`, and the buffer for it is large enough.
pub create_server_address_lem :
    (address port : Bytes)
    → ((create_server_address address port).contents ≡ address ++ (codes ":" ++ port))
      × ((create_server_address address port).overflowed ≡ false)
unfolding create_server_address
create_server_address_lem address port = (
  rw
      (
        take-of_le (2 + length address + length port) (address ++ codes ":" ++ port)
            (omega (arith, long, longer)),
        append_assoc,
      )
      refl,
  ground (arith, long, longer),
)
  where
    long : length (address ++ codes ":") ≡ length address + 1
    long = length-append address (codes ":")

    longer : length (address ++ codes ":" ++ port) ≡ length (address ++ codes ":") + length port
    longer = length-append (address ++ codes ":") port

-- The URL that is searched is the address behind `opc.tcp://`, and the write of its terminator lies
-- always one byte past the end of the buffer.
pub complete_url_lem :
    (temp : Bytes)
    → ((complete_url temp).contents ≡ scheme ++ temp) × ((complete_url temp).overflowed ≡ true)
unfolding complete_url
complete_url_lem temp = (
  take-of_le (length scheme + 1 + length temp) (scheme ++ temp)
      (omega (arith, length-append scheme temp)),
  ground arith,
)

-- The two local arrays hold the texts exactly where the address is shorter than 256 bytes and the
-- port shorter than 128.
pub connection_url_bounds :
    (ip port : Bytes)
    → (((connection_url ip port).address.overflowed ≡ false)
        × ((connection_url ip port).port.overflowed ≡ false))
      ↔ ((length ip < 256) × (length port < 128))
unfolding connection_url
connection_url_bounds ip port = ground arith

-- Then `snprintf` cuts nothing off: the URL is `opc.tcp://address:port`.
connection_url_lem :
    (ip port : Bytes)
    → length ip < 256
    → length port < 128
    → (connection_url ip port).url ≡ scheme ++ (ip ++ (codes ":" ++ port))
unfolding connection_url
connection_url_lem ip port h k =
    rw (take-of_le (length ip) ip (omega arith), take-of_le (length port) port (omega arith))
      (take-of_le 511 (scheme ++ (ip ++ (codes ":" ++ port))) (
        omega (
          arith,
          length-append scheme (ip ++ (codes ":" ++ port)),
          length-append ip (codes ":" ++ port),
          length-append (codes ":") port,
        )))

abbrev total : List Bytes → ℕ
total [] = 0
total (part ∷ parts) = length part + total parts

for_each_part-fits :
    (b : Buffer) (parts : List Bytes)
    → b.overflowed ≡ false
    → length b.contents + total parts < b.capacity
    → ((for_each_part b parts).overflowed ≡ false)
      × (length (for_each_part b parts).contents ≡ length b.contents + total parts)
for_each_part-fits b [] h k = (h, omega arith)
for_each_part-fits b (part ∷ parts) h k =
    ground (arith, length-append b.contents part, for_each_part-fits (strcat b part) parts)

-- The configuration that a registration writes: the parts in order, in a buffer that they fill to
-- the last byte with the terminator, so that no write passes its end.
pub json_string_lem :
    (service_name address port module_type : Bytes)
    → let json = json_string service_name address port module_type in
      (json.contents
        ≡ first_part ++ service_name ++ quotation_mark ++ key_address ++ address ++ quotation_mark
          ++ key_port ++ port ++ quotation_mark ++ key_module_type ++ module_type ++ quotation_mark
          ++ last_part)
      × (json.overflowed ≡ false)
      × (length json.contents + 1 ≡ json.capacity)
unfolding json_string
json_string_lem service_name address port module_type = (refl, fits.0, omega (arith, fits.1))
  where
    start : Buffer
    start = strcpy (calloc (curr_size service_name address port module_type)) first_part

    parts : List Bytes
    parts = appended service_name address port module_type

    fits :
        ((for_each_part start parts).overflowed ≡ false)
        × (length (for_each_part start parts).contents ≡ length first_part + total parts)
    fits = for_each_part-fits start parts (ground arith) (omega arith)

-- For an address below 256 bytes and a port below 128, a removal looks for the node with just the name
-- that the registration of the same address and port gave it.
pub complete_url-create_server_address :
    (ip port : Bytes)
    → length ip < 256
    → length port < 128
    → (complete_url (create_server_address ip port).contents).contents
      ≡ (connection_url ip port).url
complete_url-create_server_address ip port h k =
    (complete_url_lem (create_server_address ip port).contents).0
    ∙ ap (◌++◌ scheme) (create_server_address_lem ip port).0
    ∙ sym (connection_url_lem ip port h k)
