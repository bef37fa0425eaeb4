-- ===== src/Sockets.antt =====
-- The sockets of ADBTestCE/adb/sockets.cpp on an explicit heap. A pointer is a number, a freed
-- socket is no cell, and a call through a dangling pointer is the fault `none`.
-- The children follow the file: State (the heap and its lists), Close, Serve (opening, ready,
-- enqueue and write events), Protocol (`handle_packet` of ADBTestCE/adb/adb.cpp), Requests (the smart
-- socket), Reading (read events), Shutdown (a transport goes away) and Connection (the whole server).
pub mod State
pub mod Close
pub mod Serve
pub mod Protocol
pub mod Requests
pub mod Reading
pub mod Shutdown
pub mod Connection
pub mod Sound
mod Examples
mod Traces
