-- ===== src/Lib.antt =====
-- The metric collection of Fullerite's Python side, the framework `diamond` of src/diamond.
--
-- The server (server.py) scans directories for collector classes (utils/classes.py) and, in
-- rounds, starts one process for each collector that the configuration names and stops those that
-- it no longer names. A process runs the loop of utils/scheduler.py, which calls the collector's
-- `_run` once in each window of time, under an alarm. A collector (collector.py) builds metrics
-- (metric.py), keeps the values of counters, buffers the payloads, and sends the buffer to the
-- agent over a socket; its errors are metrics too. Some collectors convert units (convertor.py).
--
-- Base: names of the library that all modules use, integers, dicts as association lists, texts
--   as lists of code points, results, and methods as functions from an object to a result and an
--   object.
-- Python: floats as a record of operations, the numbers int, long and float, the values of a
--   configuration, and the conversions `int` and `float`.
-- Convertor: src/diamond/convertor.py. Binary is the class `binary`, Time the class `time`;
--   Binary/Scale, Binary/RoundTrip and Time/Store hold the proofs.
-- Metric: src/diamond/metric.py, the constructor and the readers of the path; Metric/Line has
--   `parse` and `__repr__`.
-- Collector: src/diamond/collector.py. State is the object and the world it runs in; Path is
--   `get_metric_path`; Derivative is `derivative`; Flush is `_connect` and `flush`; Publish is
--   `publish`, `publish_metric` and `report_error`; Config is `load_config` and
--   `process_config`; Run is `_run` and the typed variants of `publish`; Search is
--   `find_binary`. Quiet, Delivery and Endless are about the error reports and the end of
--   `flush`; Names, Rates, Reading, Processed and Outcome hold the other proofs.
-- Scheduler: `collector_process` of src/diamond/utils/scheduler.py; Scheduler/Alarms has the
--   proofs.
-- Server: a round of `Server.run` of src/diamond/server.py, and Server/Loop the loop with its
--   reloads; Server/Rounds, Server/Unique and Server/Loop/Settled have the proofs.
-- Loader: `load_collectors` and `load_include_path` of src/diamond/utils/classes.py; Classes has
--   the classes, `load_dynamic_class`, and `load_class_from_name` of src/diamond/util.py.
--   Dynamic, Scan, Finds, Complete and Include have the proofs.
-- Snmp: src/diamond/collectors/tcp/tcp.py, ip/ip.py and udp/udp.py; Tables is about the tables
--   that they read, Sent about what is sent.
-- Kernel: src/diamond/collectors/interrupt/soft.py, proc/proc.py and slabinfo/slabinfo.py, and
--   Kernel/Memory memory/memory.py; Units is about the unit of memory.
-- Rpc: src/diamond/collectors/nfs/nfs.py and nfsd/nfsd.py; Layouts holds their columns, Columns
--   is about where a result comes from.
-- Json: the documents that some collectors get.
-- Mongo: src/diamond/collectors/mongodb/mongodb.py and tokumx/tokumx.py. Mongo has the values of
--   a document, Locks `_publish_transformed`, Server what `collect` reads, Collect what it does
--   with a connection, and Hosts the hosts; Flat and Locks/Ignored hold proofs.
-- Redis: src/diamond/collectors/redisstat/redisstat.py, the addresses of the instances;
--   Redis/Collect has `collect`, and Texts, Single and Password hold proofs.
-- Elastic: src/diamond/collectors/elasticsearch/elasticsearch.py. Elastic has the helpers for
--   the table of metrics, Node and Jvm the metrics of a node, Indices those of the indices,
--   Collect the requests and the instances, and Run `collect`; Totals holds the proof.
-- Jolokia: src/diamond/collectors/jolokia/jolokia.py. Jolokia has the texts, Beans the state and
--   `collect_bean`, Collect the requests and the domains, Hosts `collect`, and Options the
--   configuration; Names, Escape and Collect/Failed hold proofs.
-- Cpu: src/diamond/collectors/cpu/cpu.py. Cpu has the lines of the file, Usage the rest of
--   `collect`; Normalize holds the proof.
-- Memcached: src/diamond/collectors/memcached/memcached.py; Pid holds the proof.
-- Zookeeper: src/diamond/collectors/zookeeper/zookeeper.py.
-- Icinga: src/diamond/collectors/icinga_stats/icinga_stats.py. Parse reads the status file,
--   Entities counts hosts and services, Program has the metrics of the program, Run has
--   `collect`; Blocks, RoundTrip, Tallies, Counts and Slots hold proofs.
-- OpenVpn: src/diamond/collectors/openvpn/openvpn.py. Reading is the connection to the
--   management port, Status the parser; Waiting holds the proofs.
-- Disk: src/diamond/collectors/diskspace/diskspace.py. Disk finds the file systems, Space has
--   the metrics of one, Run has `collect`; Found and Blocks hold the proofs.
-- Nagios: src/diamond/collectors/nagiosperfdata/nagiosperfdata.py; Lines is about the lines that
--   are not valid.
-- HaProxy: src/diamond/collectors/haproxy/haproxy.py; Rows is about the length of the rows.
-- MySql: src/diamond/collectors/mysqlstat/mysqlstat.py. Keys holds the constants, Innodb the
--   InnoDB status, Stats the rows of the other queries, Publish what is published; Skips is
--   about the keys that are not tried.
-- Sys: network/network.py, conntrack/conntrack.py, interrupt/interrupt.py, sockstat/sockstat.py,
--   vmstat/vmstat.py and loadavg/loadavg.py of src/diamond/collectors; Sums is about the counts
--   of the sockets.
-- Tests: concrete worlds and collectors, and one instance of each theorem with hypotheses.
--
-- A method is a function from the object to a result and the object: what is written before an
-- exception stays written. The names of the definitions are those of the source in lower case
-- with underscores (`getMetricPath` is `get_metric_path`).
--
-- `publish`, `flush` and `report_error` call one another: a failed send is logged, the log's
-- handler reports the error by a metric, and that metric may fill the buffer again. The models
-- take the depth to which these calls may nest, and meet the recursion limit below it. The first
-- result below says which depth is enough. The loop of OpenVpn/Reading takes the number of lines
-- that may be read, and gives none where the loop has not ended by then; OpenVpn/Waiting is about
-- the number that is enough.
--
-- Parameters, because their code is not in the repository: the operations on floats (record
-- Float), regular expressions, `json.dumps`, the clock, the outcomes of `connect` and `sendall`
-- (record World), what importing a module does (Loader), the files of the collectors'
-- configurations (record Site), the lines of the files of /proc, what psutil reports, what
-- `urlparse`, `os.path`, `os.stat` and `os.statvfs` answer and each `readline` of a connection
-- returns (Outside, System, Stream), the rows that `csv` and MySQL give, what pymongo, the client
-- of Redis, the server of Elasticsearch and the Jolokia agent give for a host (Client, Reply and
-- Response), `re.sub`, `re.search`, `urllib.quote` and `crc32` where a collector uses them. What
-- the constructor of a collector does is a parameter of the server too (record Site), since each
-- class has its own. The laws of floats that Convertor/Binary/RoundTrip needs are the record
-- Scaling, and Scheduler/Alarms asks that `int` of a float that is not below 1 is at least 1;
-- Tests/Floats has floats of that kind, where natural numbers stand for floats.
--
-- Not modelled: `ProcessCollector`, a SIGHUP that interrupts a round of the server, the processes
-- and signals of the operating system beyond what they do to the loops, the other collectors of
-- src/diamond/collectors, and the agent, which is written in Go.
pub mod Base
pub mod Python
pub mod Convertor
pub mod Metric
pub mod Collector
pub mod Scheduler
pub mod Server
pub mod Loader
pub mod Snmp
pub mod Kernel
pub mod MySql
pub mod Nagios
pub mod HaProxy
pub mod OpenVpn
pub mod Rpc
pub mod Json
pub mod Mongo
pub mod Redis
pub mod Elastic
pub mod Disk
pub mod Icinga
pub mod Jolokia
pub mod Cpu
pub mod Memcached
pub mod Sys
pub mod Zookeeper
mod Tests
