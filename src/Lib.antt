-- ===== src/Lib.antt =====
-- SharedPainter sends what a painter does to the other painters of a channel as packets over TCP,
-- and finds them on the local network by UDP and broadcast. This development models the way of a
-- packet: the fields in a string, the header before the body, the stream of bytes that a
-- connection receives, the classes that make and parse the messages, and the history of what was
-- painted; and the server of SharedPaintServer, which relays packets between the painters of a room.
--
-- Common: the library names that the files share, lists and Boolean tests over the native numbers,
--   and the outcome of a C++ call (a value, an exception, undefined behaviour).
-- Wire: class CPacketBufferUtil of SharedPainter/PacketBuffer.h. A writer `writeX( buf, pos, v )` is
--   a function that gives the new string and the count that is added to `pos`, and `pos += f; pos +=
--   g` is `f ⨟ g`. A reader gives the value and the count, and a parse is a do block of readers.
--   Wire/Fill is for a parse that stores its fields one at a time in an object: a text that is cut
--   off is stored as far as it is read, before the exception, and the fields behind it are left.
-- Buffer: class CPacketBuffer of SharedPainter/PacketBuffer.h and .cpp: the string and the read
--   position as a record, each method as a function that gives its outcome and the buffer. The position
--   is a number; Buffer/Sizes has the methods that use an `int`, with its conversions and wrap-around,
--   beside those of the numbers, which stand for them below 2 ^ 31 bytes.
-- Slicer: class CPacketSlicer of SharedPainter/PacketSlicer.h. The fields are a record, the states
--   are those of ParsingState, and each case of the switch is a function that ends in the next one,
--   as the cases fall through. The loop of `parse` runs on fuel, one more than the bytes in the
--   buffer: each round but the last takes a byte at least. A receive event is `addBuffer` and
--   `parse`.
-- Builder: `makePacket` of SharedPainter/CommonPacketBuilder.h, and a child module for the classes
--   of SystemPacketBuilder.h (System, Joins), WindowPacketBuilder.h (Window), PaintPacketBuilder.h
--   (Paint, Backgrounds), ScreenSharePacketBuilder.h (ScreenShare), UdpPacketBuilder.h and
--   BroadCastPacketBuilder.h (Peers). `make` gives the packet, "" after an exception; `parse` gives
--   the fields, or none for false. Builder/Delivery joins makePacket and the slicer.
-- User: SPaintUserInfoData and CPaintUser::serialize and deserialize of SharedPainter/PaintUser.h.
-- Server: the user as the server keeps and sends it, of SharedPaintServer/PaintUser.h, and what the
--   server and a painter make of each other's bytes. Server/Messages is SharedPaintServer/
--   SystemPacketBuilder.h, Server/Rooms is SharedPaintRoom.h and .cpp, and Server/Clients is
--   SharedPaintManager.h and .cpp and SharedPaintClient.h and .cpp. A session is a number, and the
--   table of the sessions, with what was written to their sockets, is the hub that the rooms share,
--   as the source shares pointers. A std::map is the list of its entries in the order of the keys.
--   Each handler of a session is a function on the server, and a null protocol that is used is
--   undefined behaviour. Rooms/Elections has the invariant of a room, Clients/Hosting that of all
--   rooms, Clients/Receipt the packets that are expected, and Clients/Reach the states that a server
--   comes to. How SharedPaintServer/SharedPaintProtocol.cpp reads and writes a protocol, through
--   buffers of the coconut library, is not modelled.
-- Item: SPaintData, and CLineItem, CImageItem and CTextItem of SharedPainter/PaintItem.h in bytes. A
--   QString is its bytes in UTF-8, and a QColor its four components.
-- Task: the data of a task, of a move and of an update, of SharedPainter/SharedPaintTask.h.
--   Builder/Tasks is SharedPainter/TaskPacketBuilder.h and SharedPaintTaskFactory.h.
-- History: CSharedPaintCommandManager of SharedPainter/SharedPaintCommandManager.h and .cpp. The
--   tasks of a channel, the play position, the painters who may draw and the two stacks of commands
--   are records; a loop over the tasks is a recursion on the count of its rounds, and an index past
--   the end is undefined behaviour. What a task or a command does is a record of the virtual
--   methods of CSharedPaintTask and CSharedPaintCommand, of which nothing is assumed. The classes
--   that derive from them are not modelled: they draw in a Qt scene. History/Rounds is what playing
--   to a position executes and rolls back.
--   History/Items is the items of the class, and CSharedPaintItemList of SharedPainter/
--   SharedPaintManagementData.h; an item is a number and its id is not negative.
-- Examples: the theorems at concrete inputs.
--
-- A string is a list of bytes; a signed word and a double are their bit patterns, and an int is its
-- 32-bit pattern. Words are written with their wrap-around. The locks are not modelled: each method
-- runs under its own. Not modelled are the items that
-- read and write files and with them the message that creates an item, what executing a task does, the
-- sessions of the painters and their dispatch, the sockets and the test connection of the server, and
-- what is Qt, ffmpeg or another library's copy.
pub mod Common
pub mod Wire
pub mod Buffer
pub mod Slicer
pub mod User
pub mod Builder
pub mod Server
pub mod Item
pub mod Task
pub mod History
pub mod Examples
