-- ===== src/Lib.antt =====
-- efes: a distributed file store. A tracker keeps the places of files in a database, servers keep
-- the files on disk, clients upload files to servers in chunks. This library models the
-- upload side of a server down to its bytes, and the transactions that close and delete a file.
--
-- A client sends a file in PATCH requests. The receiver (filereceiver.go) appends each body to the
-- data file, feeds the same bytes to a SHA-1 and a CRC-32 digest, and keeps the offset and the
-- state of both digests in an info file (fileinfo.go), from which the next request goes on. When the
-- announced length is reached the info file goes away and the response carries both sums.
--
-- - Prelude: shared names, Boolean tests, lists over the native numbers, integers, xor.
-- - Encoding: encoding/hex and encoding/binary as far as the digests use them.
-- - Crc32: crc32.go (`simplePopulateTable`, `simpleUpdate`, `slicingMakeTable`, `slicingUpdate`) on
--   words with their wrap-around; Crc32/Update compares them with a shift register; Crc32/Digest is
--   `crc32digest`; Crc32/Text is crc32_efes.go.
-- - Sha1: sha1.go; `block` in Sha1, Sha1/Digest is `sha1digest` with `Write`, Sha1/Sum is `Sum` and
--   `checkSum`, Sha1/Text is sha1_efes.go. A panic is `none`.
-- - FileInfo: fileinfo.go, the struct and the file that holds it.
-- - Receiver: filereceiver.go. Receiver/Disk has the state of one path (`Slot`: the directory, the
--   data file, the info file), the record of calls that fail (`Faults`) and the files of
--   fileinfo.go; Receiver/Copy is `io.Copy` into the file and the digests; Receiver/Save is
--   `saveFile`; Receiver/Http is `ServeHTTP` and `tempfileExists`. Receiver/Invariant is about the
--   promise of an info file, Receiver/Serving about requests.
-- - Tracker: tracker.go, as far as it changes the tables (Docker/mysql/init/schema.sql) when an
--   upload is closed or a file is deleted: the SQL statements as functions on the tables in
--   Tracker, `createClose` and `deleteFile` in Tracker/Handlers, transactions of statements each of
--   which may fail. Tracker/Places, Tracker/Deleting and Tracker/Closing are about places and
--   delete tasks, Tracker/Succeeding about the success of createClose. Tracker/Devices is
--   `findAliveDevice` and `createOpen`; Tracker/Devices/Suitable is about the rows of its query,
--   Tracker/Devices/Chosen about the device that is chosen, Tracker/Devices/Opening about the row
--   that is left. Tracker/Tempfiles is tempfile.go. Tracker/Paths is `getPath` and
--   `getPaths`; Tracker/Paths/Named is about the rows of their query, Tracker/Paths/Opened about a
--   file that was closed, Tracker/Paths/Deleted about a key that was deleted.
--   Tracker/Lists is the handlers that list a table, Tracker/Publishing `publishDeleteTask`,
--   Tracker/Iterating is iterfiles.go, with Tracker/Iterating/Pages about its pages.
-- - Client: sha1file.go (`Sha1File`) and the reader of a request's body; Client/Send is write.go
--   (`sendFile`, `send`, `patch`, `getOffset`, `finishFile`) over an `Exchange`, which stands for
--   the network and the server. Client/Reading is about the digest of what was read,
--   Client/Requests about a single request, Client/Safety about what a success means.
--   Client/Enough is about the fuel of `send`. Client/ChunkSize is chunksize.go.
--   Client/Calls is client.go and read.go.
-- - Upload: an upload of the client to the receiver, over a network that decides of each request
--   whether it is answered, loses its answer, or is lost (`Fate`). Upload/Requests is about what one
--   request leaves behind, Upload/Stored about a faulty network; Upload/Patched is about one request
--   that meets no failure, Upload/Delivered about an upload that meets none.
-- - Cleaner: cleandevice.go, `checkFid` with its helpers; Cleaner/Accounts and Cleaner/Checking are
--   about the rows that it deletes and the tasks that it publishes. Cleaner/Walk is the walk over the
--   files of a device and the tick (`cleanDevice`); Cleaner/Walk/Keys is about the primary key of
--   file_on, Cleaner/Walk/Single about one check, Cleaner/Walk/Cleaned about a tick, and
--   Cleaner/Walk/Settled about one without failures.
-- - Server: server.go, the paths of files on a disk (`vivify`) and the consumer of delete tasks
--   (`processDeleteTasks`); Server/Names reads a file's number back from its name.
--   Server/Stats is the numbers of the disk. Server/Disk is
--   cleandisk.go with `visitFile`, the walk and the tick. Server/Queue and Server/Disk/Kept are
--   about the files that go and that stay.
-- - Drainer: drain.go, `Run` and `moveFile` over the disks of all devices, with `findAliveDevice`
--   of the tracker and an upload (`Send`). Drainer/Moving, Drainer/Steps and Drainer/Kept follow one
--   file through a run; Drainer/Sending is the upload, `sendFile` of the client over a network to the
--   file receiver, for which Upload/Stored is used.
-- - Status: statussort.go, the comparisons of the status display; Status/Order is about the order,
--   Status/Cells is the gigabytes, percentages and colours of status.go.
-- - IoStat: iostat.go, `findLongestPrefix` and `Utilization`, with IoStat/Mounts and IoStat/Window
--   about them.
-- - Process: main.go, `runUntilInterrupt` with `handleSignals` and `shutdownProcess` as a step
--   relation.
-- - Mount: mount.go, a handle of an open file; Mount/Lookup is `Lookup`; Mount/Reads is about the bytes that it returns.
-- - Tests: runs on small inputs, and witnesses.
--
-- Bounds: words are natural numbers below 2 ^ 32 or 2 ^ 64, and each operation that wraps says so.
-- Offsets are unbounded, since no file reaches 2 ^ 63 bytes. `block` runs on fuel: the number of
-- bytes, of which each round takes 64. `send` runs on fuel for its requests: more than the file has
-- bytes is enough if the chunk size and the buffer are not 0, since each but the last takes one. `retry`
-- runs on the number of tries that are looked at; the code sets no bound, since each good PATCH puts
-- off the end of the retries.
--
-- Faults: a call of the operating system either fails without effect or does what it documents; the
-- exceptions are those of `SaveFault`, and a write that takes only a part of its data (`short`). The
-- predicate `Careful` excludes a failure of `createFile` between the truncation of the data file
-- and the replacement of the info file; `IsWhole` excludes short writes: after either the info file
-- may promise bytes that the data file does not hold.
--
-- Not modelled: locking (the receiver takes requests for one path one at a time here), the text of
-- headers and error messages, logging, and these parts: the rest of mounting, the tables and
-- sums of the status display, the command line. Nothing else changes a table or a disk while a handler, a
-- walk or a drain is at work; but in Tracker/Publishing the broker takes every delete task. In Client/Send
-- how much of a body the transport takes before the response counts, and when backoff gives up, are
-- parameters of the configuration; a success for a request of whose body nothing was taken is
-- excluded where it matters, since `send` would take it for the end of the file. A Commit that
-- fails is taken as a rollback, and a key stands for its class under the database's equality of keys.
pub mod Prelude
pub mod Encoding
pub mod Crc32
pub mod Sha1
pub mod FileInfo
pub mod Receiver
pub mod Tracker
pub mod Cleaner
pub mod Client
pub mod Server
pub mod Drainer
pub mod Status
pub mod IoStat
pub mod Process
pub mod Mount
pub mod Upload
pub mod Tests
