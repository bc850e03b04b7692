-- ===== src/Lib.antt =====
-- pan-client is a Go library that gives one interface to several cloud drives. This library
-- models the parts of it that all drives share, with the drivers of three of them, and proves
-- what makes them correct.
--
-- The parts. A client is created in enter.go and kept in the registry of pan/op.go.
-- pan/driver/quark is one of the drivers: it turns the replies of its server into listings,
-- changes of directories, uploads in parts and shares; pan/driver/baidu_netdisk and
-- pan/driver/cloudreve do the same for theirs, the one by paths and with a token that it
-- refreshes, the other with upload sessions that it keeps in its cache. Each driver under
-- pan/driver embeds the helpers of pan/driver.go: lookups of paths, downloads of directories,
-- readers that count what is uploaded; it keeps its listings in the cache of pan/cache.go and
-- reports errors by pan/exception.go. A large file is downloaded by internal/chunk_download.go:
-- CalRange cuts the file into ranges and takes up the chunk files of an earlier run, calTask
-- turns the ranges into tasks for a pool of workers, and mergeFile appends the chunk files in
-- order as the workers complete them. internal/gcid.go computes the content hash that one of the
-- drives asks for.
--
-- Which file models what. Download.antt has the settings of a chunked download and ensure;
-- Download/Names getRangeTempFile and getRangeStartEnd; Download/Ranges addRange and CalRange;
-- Download/Tasks calTask, handleTask, retry, calFileName, the entry of Do and the progress
-- counters; Download/Merge completeTask, popTask and mergeFile. Client is enter.go with the
-- settings of pan/driver.go. Gcid is internal/gcid.go with GetFileGcid of internal/util.go, Cache
-- pan/cache.go with CacheOperate of pan/driver.go, Errors pan/exception.go, Registry pan/op.go.
-- Drive models pan/driver.go: Drive/Lookup is GetPanObj, Drive/Collect CollectItemIds,
-- Drive/Filter the loops over extensions and ignored names, Drive/Tree BaseDownloadPath,
-- Drive/Upload BaseUploadPath with the walk of package filepath, Drive/Rename BaseBatchRename,
-- Drive/Proxy BaseProxyFile, Drive/File BaseDownloadFile, Drive/Reader ProgressReader and
-- ProgressWriter. Quark is pan/driver/quark: Quark/Replies has how the replies of methods.go
-- become results and the small requests, Quark/Pages its three listings, of which those of shares
-- collect pointers into one result, Quark/Directory List, Quark/Directory/Making Mkdir,
-- Quark/Directory/Changing ObjRename, Move and Delete of driver.go, Quark/Upload UploadFile with
-- the upload requests, Quark/Share the shares, the capacity and the addresses of downloads. Baidu
-- is pan/driver/baidu_netdisk: Baidu/Requests has the requests of methods.go with the refresh of
-- the token, Baidu/Requests/Files those for files and uploads, Baidu/Directory List and the
-- changes of directories of driver.go, Baidu/Upload UploadFile. Cloudreve is
-- pan/driver/cloudreve: Cloudreve/Start has Init with config, Cloudreve/Replies the requests of
-- methods.go, Cloudreve/Directory List, ObjRename and Mkdir, Cloudreve/Directory/Moving Move and
-- Delete, Cloudreve/Upload UploadFile with the loops of methods.go. Drive/Listings has what the
-- drivers share of their listings in the cache. Http has what a driver sees of an exchange with
-- its server, and Local is GetFileMd5, GetFileSha1 and GetMimeType of internal/util.go. A
-- function keeps its name in snake case; the branches of a long one are helpers that stand above
-- it. Base has what all of them use: texts as lists of bytes, results, Boolean tests, and int64.
-- Each directory's Examples has the tests and the runs of the theorems at concrete inputs.
--
-- How state and numbers are modelled. A struct is a record, a method a function from the record
-- to the record. Calls of a server or of a driver are state passing over a state that is left
-- open, Drive.Call. An int64 is its bit pattern below 2 ^ 64: sums and differences wrap around
-- and comparisons are signed, and theorems say for which sizes nothing wraps. Concurrency is
-- explicit: Download/Merge has a step for each action of a worker, of a goroutine that waits to
-- send, and of the merge, and its theorems hold of every sequence of steps. The clock of the
-- cache is an argument of each call; GetOrLoad reads it from the world. The state of the Quark
-- driver is its cache and that world, and a record Server has one field for each request; that of
-- the Baidu driver has its properties too. Cloudreve keeps values of several kinds in its cache,
-- which are a data type, and goes through a map in an order that is a parameter. The error nil of
-- the model, which the source never returns, stands for a call that gives nothing back: it panics
-- or ran out of rounds.
--
-- Fuel. The loops of addRange and CalRange run on a number of rounds, and a round for each byte
-- of the file is enough. BaseDownloadPath, BaseUploadPath and BaseBatchRename run on the depth to
-- which directories are nested, which is enough. The write loop of the hasher takes a round for
-- each byte and one more. The loops over pages take a round for each page and one more, the loop
-- over the parts of an upload more rounds than the file has bytes, and the loop of
-- checkTaskSuccess a round for each question and one more, which theorems show to be enough. The
-- loop of the Baidu driver over pages takes a round for each page and one more, and the loop of
-- the Cloudreve driver over chunks a round for each byte that is left, which is enough; its Mkdir
-- takes a round for each part of the path, and a theorem shows when none is enough. Lookups in
-- lookups, which List makes for directories without an id, are bounded by a depth. Elsewhere
-- loops are structural.
--
-- What is outside. sha1, the operating system's files, singleflight.Group.Do, a driver's List and
-- DownloadFile are parameters; hypotheses state what their documentation promises. A driver's
-- Init and the filling of defaults by struct tags are parameters of the constructors of enter.go.
-- The Quark server, the object store that it names, the files on disk and url.Parse are
-- parameters. The servers of the other two drivers are parameters in the same way. Of the decoder
-- of JSON one thing is used, in the listings of shares: it writes into the objects that a slice
-- of pointers has already. Not modelled: the drivers for Aliyundrive and Thunder, the set-up of
-- the request library when a driver starts, the requests of the Cloudreve driver that nothing
-- calls, logging, progress rates, and the reflection of internal/config.go.
pub mod Baidu
pub mod Base
pub mod Cache
pub mod Client
pub mod Cloudreve
pub mod Download
pub mod Drive
pub mod Errors
pub mod Gcid
pub mod Http
pub mod Local
pub mod Quark
pub mod Registry
