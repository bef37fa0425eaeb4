-- ===== src/Lib.antt =====
-- A verification of the core of the adb host in ADBTestCE/adb: a client talks to the server over a
-- text protocol, and the server talks to a device by packets. Descriptors of clients and services are
-- wrapped in local sockets; each is the peer of a remote socket, which stands for the device's end.
--
-- Prelude: tests on numbers, lists and byte strings that all modules share.
-- Packet: `apacket` and `amessage` (ADBTestCE/adb/adb.h), `send_packet`, `check_header` and
--   `check_data` (ADBTestCE/adb/transport.cpp). Words of 32 bits keep their `% 2 ^ 32`.
-- Io: the loops of ADBTestCE/adb/transport.cpp around `adb_read` and `adb_write`. A descriptor is the
--   list of what its next calls give, and a call beyond the list blocks.
-- Wire: `unhex`, `sendfailmsg` (ADBTestCE/adb/sockets.cpp), `adb_status` and the request of
--   `_adb_connect` (ADBTestCE/adb/adb_client.cpp).
-- Client: the client's connections, `switch_socket_transport` and `_adb_connect`, and in
--   Client.Session `adb_connect`, `adb_command` and `adb_query` (ADBTestCE/adb/adb_client.cpp).
-- Host: what the server answers itself, `handle_host_request` and `connect_device`
--   (ADBTestCE/adb/adb.cpp), on its listeners and transports; Network has the devices at an address,
--   Requests the forwarding of ports and the whole. Truth says what is so of the server; Queries,
--   Switching and Forwarding put a client on the other end of the connection.
-- Zip: the archive's reader, which looks into a package before it is sent: `read_central_dir`
--   (ADBTestCE/adb/centraldir.cpp), `init_zipfile` and `lookup_zipentry` (ADBTestCE/adb/zipfile.cpp),
--   held against the format, which Zip.Archive writes down on its own.
-- Sync: the sync protocol. Sync has its messages and the blocks that the client sends, Send
--   `sync_send`, Receive `sync_recv` (ADBTestCE/adb/file_sync_client.cpp); Service has
--   `handle_send_file` and `do_recv`, Commands the loop of `file_sync_service` with `do_stat`,
--   `do_list` and `do_send` (ADBTestCE/adb/file_sync_service.c). Blocks, Push and Pull are about blocks,
--   Delivery about the name with the path and the mode, Delivered and Sent about a whole SEND.
--   Entries has `sync_ls`, `sync_readtime` and `sync_readmode`, and EntriesWhole is about a listing.
-- Smart: how `smart_socket_enqueue` collects a request and takes it apart, `skip_host_serial`, and
--   `format_host_command` (ADBTestCE/adb/commandline.cpp).
-- Sockets: `asocket` on an explicit heap, whose pointers are numbers and where a freed socket has no
--   cell. State has the lists and ids, Close the close functions, Serve the rest of a socket's life,
--   Protocol the packets of `handle_packet` (ADBTestCE/adb/adb.cpp) that concern sockets, Requests
--   what `smart_socket_enqueue` does with a request, Reading `local_socket_event_func`, Shutdown
--   `run_transport_disconnects` and `close_all_sockets`, Connection the packets SYNC and CNXN, the
--   listeners' clients, and one step of the server, which knows what transports were freed. A step
--   through a dangling or a null pointer gives `none`. Sound has the invariant, and in Reach the
--   states that the server gets to.
-- Transport: `qual_match` and `acquire_one_transport` (ADBTestCE/adb/transport.cpp); the list of
--   transports is as each try finds it, since other threads change it.
--   Transport/Count has `kick_transport` and the reference count.
-- Listing: `list_transports` with short and long lines and `list_transports_msg`
--   (ADBTestCE/adb/transport.cpp), where `snprintf` is `_snprintf`.
-- Banner: `fill_connect_data`, as a device has it, and `parse_banner` (ADBTestCE/adb/adb.cpp) with
--   the `adb_strtok_r` of ADBTestCE/adb/sysdeps_win32.cpp.
-- Events: `fdevent_set`, `fdevent_add`, `fdevent_del`, `fdevent_remove`, the pending list and
--   `fdevent_loop`, as ADBTestCE/adb/sysdeps_win32.cpp has them for this platform.
-- Pair: the emulated socket pairs of ADBTestCE/adb/sysdeps_win32.cpp, over which the parts of the
--   server talk to each other: `BipBuffer` with its writer and reader, a bounded queue that they are
--   held against, and the two descriptors of `adb_socketpair`.
-- Listeners: `install_listener`, `remove_listener` and `listener_disconnect` (ADBTestCE/adb/adb.cpp).
--
-- A close function calls its peer's, which has no peer by then, so that two calls are enough for
-- `close_socket`. `close_all_sockets` has one round for each pointer that was ever given: each round
-- takes a socket off the list. The loop over a banner's properties has the text's length for fuel:
-- each of its turns takes a byte. The loops of the sync protocol have one round more than the stream
-- has bytes, where each round takes eight, and the client's loop over blocks one for each byte of the
-- file. All other loops are by recursion on the data.
--
-- In Sockets the answer of `handle_host_request` is a parameter, so that what is shown there holds
-- for any answer, that of Host among them.
--
-- Not modelled: the drivers, threads and mutexes, which only move packets between the parts; the C
-- library beyond what the source uses of it (`strtoul`, `%04x`, `strchr`); the registration of
-- transports; authentication, which is not compiled; the services behind a name, which are the
-- descriptor that `service_to_fd` or `create_host_service_socket` gives, so that the sockets of the
-- trackers are outside; the file system, whose answers (what the calls that open a file give, which writes fail) are
-- parameters of the sync protocol; the lists of files that the client copies, and symbolic links,
-- which are not compiled. The short replies to clients (`OKAY`, `FAIL`) and what a device
-- sends of a file are taken as written in full.
pub mod Prelude
pub mod Packet
pub mod Zip
pub mod Client
pub mod Host
pub mod Sync
pub mod Io
pub mod Wire
pub mod Smart
pub mod Sockets
pub mod Transport
pub mod Listing
pub mod Banner
pub mod Events
pub mod Pair
pub mod Listeners
