-- ===== src/Lib.antt =====
-- A verification library for the distributed system of this repository: three processes, Discordia
-- (the planner of the crew), I-Mongo-Store (a file system of blocks) and Mi-RAM-HQ (the memory),
-- that talk over sockets with the messages of utils.
--
-- The parts modelled, and where:
--   Protocol: utils/src/protocol. Protocol.Buffer is the growing byte buffer (buffer.c), with
--     write for u_buffer_write and read for u_buffer_read; Protocol.Messages has a module for each
--     file of utils/src/protocol/messages, whose functions crear, serializar and deserializar keep
--     the names of the source's without their prefix; Protocol.Package is package.c and
--     Protocol.Opcode is opcodes.h and opcode.c.
--   Socket: u_socket_send and u_socket_recv of utils/src/network/socket.c. The kernel is a list of
--     answers, the peer a list of bytes.
--   Discordia: Discordia.Messenger has the functions of Discordia/src/discordia/discordia.c that
--     send a message to the file system. Each gives the bytes that it hands to the connection.
--     Discordia.Parser is Discordia/src/console/parser.c, ds_parse with its parts, and
--     Discordia.Console the dispatch of console.c. Discordia.Crew is
--     Discordia/src/planificador/tripulante with its tasks, a turn of its thread included;
--     Discordia.Queues is Discordia/src/planificador/queues; Discordia.Planner is
--     Discordia/src/planificador/planificador.c, with the rounds of FIFO and RR in
--     Planner.Algorithms, the sabotage in Planner.Sabotage, the device of io.c in Planner.Io and
--     the turn of the planner in Planner.Cycle. Discordia.System has the threads (the planner, the
--     CPUs, the device, the console and the sabotages) as a relation between states.
--   Mongo: I-Mongo-Store/src. Mongo.ClientHandler is server/client_handler.c, up to the call of
--     the file system, which stands as a value of Request and is taken to return; Mongo.Disk is
--     fs/disk/disk.c; Mongo.Blocks is fs/blocks/blocks_manager.c; Mongo.File is fs/file/file.c
--     without its integrity check.
--   Ram: Mi-RAM-HQ/src/memoria/esquemas/segmentacion, without the prefix segmentacion_ of its
--     functions. Ram.Segments is the list of segments: the search of a free one (first fit and
--     best fit), its split and the step of the compaction on the list. Ram.Tables has the tables
--     of the patotas, Ram.Physical the memory itself, Ram.Segmentation the whole state with a step
--     of the compaction, Ram.Allocation the compaction and the start of a patota, Ram.Crew the
--     operations on crew members, and Ram.Dump the dump and the signals.
--
-- How they meet: the planner of Discordia moves the crew members between the queues and the
-- device, and the console starts and expels them and pauses the planner; a crew member that works
-- hands its notices (Aviso) to the connections and reads its next task from the answers of the
-- memory (Red), which are a list. A crew member is in one queue or in one thread's hands at a
-- time, so it is a value and not a reference. The threads of Discordia.System take their steps in
-- any order; a step is a call of the console, a part of the turn of the planner (the admission or
-- the start of a sabotage, the admission into EXEC, the review of EXEC, the requests to expel), or
-- what a CPU or the device does with one crew member, although a thread may lock more than one
-- queue in turn there. Discordia.Messenger writes with Protocol what Mongo.ClientHandler reads
-- with it; Mongo.File asks Mongo.Blocks for blocks and writes through it to Mongo.Disk. In Ram the
-- list of segments and the tables both know where a segment starts: Ram.Allocation fills them
-- together, the compaction moves them together, and Ram.Crew reads the address in the tables.
--
-- Conventions: a failed assertion, an access outside of memory and a null pointer end the program;
-- they are none, or abort in Prelude.Run, which also has undefined for the read of a variable that
-- was never set and deadlock for a mutex that is never unlocked. A block of memory is the list of
-- its bytes, a C text with its zero byte. Words of 32 and 64 bits wrap around where the source's
-- do. A t_list of so-commons is a list, a t_config the record of its values.
--
-- Third parties: the bit arrays of so-commons are a parameter, Mongo.Bitarray, with the documented
-- laws of get, set and clean for bits inside of the array; Mongo.ListBits shows that these can
-- hold. The MD5 of openssl, and in Ram the string_split of so-commons, are function parameters
-- without any law; for the parser string_split and atoi are the record Discordia.Parser.Library,
-- whose laws (words joined by a separator are split again, a decimal number is read) stand in
-- Discordia.Parser.Laws with a library that has them. The crew and the queues take the record
-- Commons: its string_split, string_contains and atoi have no law, its list_sort the law that it
-- permutes the list, Ordena of Discordia.Queues.Weights. A memcpy whose ranges overlap, which C
-- leaves undefined, reads all bytes before it writes.
--
-- Fuel: the resize loop of a buffer gets one round for each byte required and one more, since each
-- round makes the capacity larger; the loop that fills blocks gets one round for each character
-- left and one more, since each writes one at least; the connection thread one for each byte of
-- the stream and one more, since each round reads a word; the compaction one for each segment, one
-- for each pair of a free segment and an occupied one behind it, and one more, since a round joins
-- two free segments or brings a free one behind an occupied one. The loops of the planner need no
-- fuel: they visit the elements that a queue has when the loop starts.
--
-- Not modelled: memory that is freed, log lines and printers of messages, opening files and
-- sockets, the mutexes but for those of the files (an operation on the memory runs alone), the
-- text of the messages that Discordia exchanges with the memory, the logs and tasks of
-- I-Mongo-Store, and of Mi-RAM-HQ the paging, the map and the server.
pub mod Prelude
pub mod Protocol
pub mod Socket
pub mod Mongo
pub mod Ram
pub mod Discordia
