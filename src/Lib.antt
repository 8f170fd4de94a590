-- ===== src/Lib.antt =====
-- tacppd, an AAA server for TACACS+ devices: the logic of its core, as functions on values, with
-- what they are proved to do.
--
-- The parts, and how they meet. A device opens a session; src/Tacacs.cc reads its packets, and
-- hands each to `TacacsSessionContainer::process`, which by the packet's type authenticates a user,
-- authorizes a request, or accounts for it. Authentication asks src/AAA.cc, which reads the user's
-- entry (src/TacDb.h) from the cache of the databases (src/UserTrack.cc) and compares passwords and
-- sources, and times with src/Utils.cc; who is authenticated is listed as a session of the device
-- (src/CoreDevice.cc), with the user's data (src/CoreBilling.cc), until its end; the packets of
-- accounting begin and end the sessions and give addresses back (src/AAA.cc). The pairs that
-- authorize a user may be calls, which src/AModify.cc replaces. Access lists (src/CoreAccess.cc)
-- are what the configuration keeps to permit or to deny peers, and pools (src/CorePool.cc) the
-- addresses that it hands out to users. Servers of one bundle tell each other that they run
-- (src/ServerTrack.cc).
--
-- The files:
--   Common          lists and tests over the native numbers, C strings as lists of bytes, `int` as
--                   an integer, the walks over lists of objects, `utl::scomp` of src/Utils.cc.
--   Access          src/CoreAccess.cc: Access/Entry is `Acl_entry`, Access/Data is `Acl_data`,
--                   Access itself is `CoreAccess`, and Access/Config its `applycf`.
--   User            src/TacDb.h and src/TacDb.cc: `db_user`, `user_avp`, `cmd_avp`, `db_user_acc`.
--   Aaa             src/AAA.cc: `cpass` and `db_authentication`.
--   Tacacs/Header   src/Tacacs.h: the header of a packet and its bytes on the wire.
--   Tacacs/Crypt    src/Tacacs.cc: `create_md5_hash` and `md5_xor`.
--   Tacacs/Packet   src/Tacacs.cc: `read_packet_header`, `read_packet` and `write_packet`.
--   Tacacs/Wire     numbers and texts in the body of a packet.
--   Tacacs/Client   src/Tacacs.cc: `authen_send_start` and `authen_send_cont` of the client.
--   Tacacs/Request  src/Tacacs.cc: the authorization request, `author_send_request` of the client
--                   and `get_request` of the server.
--   Tacacs/Intake   src/Tacacs.cc: the state of `TacacsServerAuthentication`, `get_start`,
--                   `get_cont`.
--   Tacacs/Authen   src/Tacacs.cc: the authentication part of `process`, a function from the number
--                   of a packet, the packet and the state to the new state and the reply.
--   Tacacs/Replies  src/Tacacs.cc: the reply of an authentication, `send_reply` of the server and
--                   `authen_get_reply` of the client.
--   Tacacs/Response src/Tacacs.cc: the reply of an authorization, `send_response` of the server and
--                   `author_get_response` of the client.
--   Tacacs/Acct     src/Tacacs.cc: the request of accounting, `account_send_request` of the client
--                   and `get_request` of the server; Tacacs/Acct/Reply is its reply, and
--                   Tacacs/Acct/Process the accounting part of `process`.
--   Tacacs/Pair     src/Tacacs.cc: the tests on attribute-value pairs.
--   Tacacs/Author   src/Tacacs.cc: the authorization part of `process`.
--   Pool            src/CorePool.cc: `Addrpool_entry` and `Addrpool_data`, one pool of addresses;
--                   Pool/Ranges is `getAddr`, and Pool/Pools the list of pools and its `applycf`.
--   ServerTrack     src/ServerTrack.cc: the servers of a bundle, and which of them is active.
--   Track           src/UserTrack.cc: `get2add`, `add` and `del`; Track/Cache its cache, Track/Sessions
--                   the sessions of a device (src/CoreDevice.cc), and Track/Billing the data of users
--                   with a session (src/CoreBilling.cc).
--   Accounting      src/AAA.cc: `db_accounting`, which acts on Track and Pool; Accounting/Ports is
--                   `portConvert` of src/Utils.cc.
--   Modify          src/AModify.cc: the pairs of a user whose values are calls, which may take an
--                   address from a pool; `getAvpName`, `getAvpValue` and `getAvpMod` of src/Utils.cc.
--   Peers           src/CorePeer.cc: the peers with their masks, and `splitId` of src/Utils.cc;
--                   Peers/Lookups is what is known of one peer.
--   Devices         src/CoreDevice.cc: the settings of the devices and the modules they load
--                   (src/DLoad.cc); `vmatch` of src/Utils.cc. Devices/Lookups is what is known of
--                   one device.
--   Base64          src/Utils.cc: `base64Encode` and `base64Decode`.
--   Cron            src/Utils.cc: `get_digit`, `cron_parse` and `check_time`.
-- The modules below these are about them, and those named Examples hold their test runs.
--
-- A C string is the list of its bytes without the closing 0; a pointer that may be NULL is an
-- `Option`; a list of objects is a list in its order. An `int` that only counts is a natural
-- number. `throw 0` and `throw 1` in the source are the results that their `catch` gives.
--
-- Parameters are what is not the program's own: the class `ipaddr` (a type with a test for equal
-- addresses), the regular expressions (whether a pattern compiles, and what it matches), MD5 (a
-- function on bytes; where a theorem needs it, its result is bytes), the clock, the socket (the
-- bytes that still come in), and what the database gives for a name at a time. Authentication takes
-- what other parts give it as arguments: the entry of the user and the number of open sessions,
-- which Track computes, and the time test of a row, which Cron defines.
--
-- Bounds: the loop of `md5_xor` over blocks runs on fuel, the length of the data, of which each
-- round takes a byte at least, and that of `cron_parse` on one turn more than the entry has bytes.
-- The loop of `getAddr` runs on the bytes of its text and the number of the address, that over the
-- pairs on the product of pairs and calls, each counted with one more, and the variables of a
-- command on its bytes. Buffers of the client's packets and of `get_request` are bounds: a copy
-- that runs over one has a result of its own, of which nothing is said. All other loops are
-- recursion on the list that the source walks.
--
-- Not modelled: locks (each method holds its object's lock for its whole body), logging,
-- destructors; a write beyond an array, which a name of exactly 32 bytes causes in `get_start`; the
-- bound of 100 pairs of an authorization reply; buffers of `getAddr` and of `AModify`, but that of
-- `setvars`; the
-- fields of accounting that only go to the database's log, beyond their texts; the copies of
-- sessions that listings make, and the removal of sessions by SNMP; billing modules, and the
-- messages of a bundle; the status and the polling of devices; the command line, the other protocols, and the database drivers.
pub mod Common
pub mod Access
pub mod User
pub mod Aaa
pub mod Tacacs
pub mod Pool
pub mod ServerTrack
pub mod Track
pub mod Accounting
pub mod Modify
pub mod Cron
pub mod Peers
pub mod Devices
pub mod Base64
