-- ===== src/Lib.antt =====
-- QUICKeR: updatable encryption of a key-value store. Clients encrypt values under keys that a
-- hardware module wraps, and store them with a server in front of Redis. To rotate a key the owner
-- sends the server a token, and the server puts the old ciphertext inside a new one.
--
-- - src/cd_encryption: AE_Nested_AES.c is the scheme (Nested), over the wrappers of OpenSSL in
--   aes_gcm.c and aes_ctr.c (Crypto). The functions keep their names: AE_Encrypt is `ae_encrypt`.
--   A pointer into a buffer is the buffer and an offset, and a read or write outside it is `fault`
--   of Memory's `Run`; `abort` is the end of the process. What RAND_bytes writes is an argument.
--   EVP is a parameter (Crypto/Evp), whose laws are what OpenSSL documents of AES-128-GCM and CTR;
--   Examples/PlainEvp is an instance of them. Nested/Layers says what a header and a ciphertext
--   hold, which each operation keeps.
-- - database/newSimpleServer/simple_server.c: the commands, the root key check of SETALL, the
--   version counters and UP_UPDATE (Server), over Redis as a parameter (Server/Redis), which is
--   GET and SET. A request is split by Text/Split.
-- - src/hiredis_storage/redis_storage.c: requests and replies (Client), over a server that is a
--   parameter, which Wire fills; recvall and sendall, which both sides have, are Net.
-- - src/actions/actions.c: upload, download and update of a ciphertext, and the master key
--   (Actions), over the client, the scheme and the hardware module's calls. Actions/Rotate is the
--   rotation of the master key, and Actions/Naive the ciphertexts that are not updatable.
-- - src/hsm_encryption/hsm_aes_gcm.c: the wrapping of keys (Hsm), over PKCS#11 as a parameter
--   (Hsm/Pkcs11). Actions take the two functions as the record `Hsm`, which Hsm/Wrap fills.
-- - Wire joins the client and a turn of the server's loop (Server/Turn) by a network, which is a
--   parameter with the laws of a stream socket. Both ends receive into the buffer that they sent
--   from, as the code does, and an update's request has a buffer of its own size. The bytes that the
--   client's malloc gives beyond a size are a part of that parameter, since getall writes into them,
--   and the memory behind the server's current_root_key a part of its state, since the text of a root
--   key fills the array.
--   Wire/Kept says what the server keeps of a ciphertext, and Wire/Calls what updates and downloads
--   make of it, each with a network and draws of its own. Wire/Traffic takes uploads, updates
--   and downloads of one ciphertext in any order, and Wire/Journey joins them to its first upload.
-- - src/main: Rounds is the orders that update_round_coordinator.c sends to the client machines, and
--   the listener of routine_operations_updatable_encryption.c that hears them. Machines is the
--   update machines of ciphertext_updates_updatable_encryption.c: their file of keys
--   (Machines/KeyFile), and the loop of a machine over the servers in a round, on the parameters that
--   it gets. Loader is populate_database_updatable.c. Text/Hex is bytes_to_new_hexstring of src/common/common.c.
--
-- Bounds: bytes are natural numbers, and only lengths that fit an `int` are claimed about. Where the
-- code reads and prints an int, Text/Int has the bits of it, with atoi as glibc documents it. The
-- recursion of decrypt_last_step has the payload's length for fuel, and each level takes off 96
-- bytes; the split has the text's length, and each word takes a byte. The loops that call the
-- hardware module until it succeeds have a number of attempts as an argument, and the loop of a round
-- a number of turns, of which one more than there are keys is enough when it goes on in steps of at
-- least one.
--
-- Not modelled: sockets and threads, and so the array of parameters that the coordinator's threads
-- share; the locks but for the critical sections of UP_UPDATE, the workloads of the client machines and
-- of the naive programs of src/main, the option parser and the loading of PKCS#11, a failing malloc,
-- time counters, and the opening and closing of the module's session. base64_enc and base64_dec only
-- call OpenSSL's BIO, and are a parameter with what it does: NULL for no bytes, and four characters for
-- three bytes (Server/Update/Recode).
pub mod Prelude
pub mod Memory
pub mod Crypto
pub mod Nested
pub mod Text
pub mod Net
pub mod Hsm
pub mod Server
pub mod Client
pub mod Wire
pub mod Actions
pub mod Rounds
pub mod Machines
pub mod Loader
pub mod Examples
