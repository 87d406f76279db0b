-- ===== src/Lib.antt =====
-- The MINAS stream classifier of src/base.c and src/base.h, the core that all programs of this
-- repository link: it classifies the examples of a data stream by their nearest cluster, keeps the
-- ones it does not know in a buffer, and finds new clusters in that buffer.
--
-- Files and code. Each file names the functions it models; its child modules hold the proofs.
-- - Prelude: names of the library, and lemmas on lists, Booleans and fixed-width integers.
-- - Double: an interface to the C type `double`. Every definition takes its operations as an
--   instance argument; the laws of IEEE 754 that a theorem needs are the record `IsIeee`, and
--   Double/Whole fills it with the integers, on which the tests run.
-- - Data: the structs of base.h. An array of doubles is a list, a pointer into an array of clusters
--   is an index. A call that ends the process (`errx`, `assert`, null pointer) is a `fail`.
-- - Nearest: `nearestClusterVal`, with the early exit of the loop over the dimensions. The variable
--   `minDist` is not initialised there; its value is the argument `junk` of all that calls it.
-- - KMeans: `kMeansInit` and `kMeans`.
-- - Clustering: `clustering`, k-means and then the statistics of its clusters.
-- - Sleep: `minasHandleSleep` and `restoreSleep`, with the counter of the sleeping clusters.
-- - Identify: `identify`, which searches the awake clusters, and all clusters if none is awake.
-- - Label: the choice of the next label in `noveltyDetection`; Label/Text: a label as text,
--   `printableLabelReuse` and `fromPrintableLabel`. The code also calls `isalpha` for labels above 255,
--   where the C library leaves it undefined: what it returns there is the argument `beyond` of all that
--   calls it, and that it returns at all is assumed.
-- - Novelty: `noveltyDetection`, from the clusters of the buffer to the new clusters of the model.
-- - Unknowns: `minasHandleUnknown`. The entries of the buffer hold pointers, so that the model has
--   both the entries and the blocks they point to.
-- - Growth: `addCluster`, with the size of the block that holds the clusters, and the lines of the
--   input from which `main` of src/online-nd.c reads the model. A write past the end of the block
--   is a `fail`.
-- - Training: `training`, from the lines that it has read to the first model.
-- - Online: what a line with an example does in the loop of `main` of src/online-nd.c.
-- - Kyoto: src/dataset-preprocessor/kyoto.c, which makes the input of the classifier from a public
--   data set; what `sscanf` reads is a parameter.
-- - Circular: old-code/src/reboot/CircularExampleBuffer.c, a ring of pointers between threads, with
--   a round under its mutex as one step; Circular/Threads: the semaphores of two threads.
-- - Mpi: src/threaded-mpi.c, the distributed program. Each thread is a function of the messages that
--   reach it: Mpi/Sampler, Mpi/Classifier, Mpi/Receiver (`m_receiver`) and Mpi/Detector; Mpi/Gather
--   adds up the counts at the end of `main`. The classifier gets the state that each round finds as
--   an argument, as other threads change it.
-- - Lines: `getMfogLine` and `readCluster`; what `sscanf` makes of a text is a parameter.
-- - Statistics: `labelMatchStatistics`, without the text.
-- - Env: old-code/src/util/loadenv.c, which looks up parameters in the environment and the arguments.
-- - Slots: old-code/src/reboot/threaded-mpi.c, the earlier distributed program: the table of slots that
--   its sampler and its detector share, with what a thread does under `slotsMutex` as one step;
--   Slots/Unknowns: the pointers of the detector's buffer.
-- - Baseline: old-code/src/base, the sequential program before src/base.c: the two searches of
--   minas.c, Baseline/KMeans, Baseline/Clustream, a clustering of a stream that can take the place of
--   k-means, and Baseline/Minas with Baseline/Minas/Online, the program around them, without `training`
--   and without the files it writes.
-- - Samples: the data of the tests.
-- An example goes from `read_example_line` to `identify`, and if it is unknown, to
-- `handle_unknown`, which calls `novelty_detection`, this one `clustering` and this one `k_means`;
-- `identify`, `assign`, `judge` and `detect_one` all search with `nearest_cluster_val`.
--
-- Integers. `unsigned int` is a natural number below 2 ^ 32 and `unsigned long` one below 2 ^ 64; a
-- sum and a difference are reduced as C does (Prelude/Words). A character of the input is one of the ASCII table,
-- so that it does not matter whether a `char` is signed; only `fromPrintableLabel` is modelled for all.
--
-- Bounds and fuel. The loop of `kMeans` is bounded by 100 rounds in the code, and `k_means_loop`
-- counts the same rounds. The loop for the next label has no bound in the code; the fuel of
-- `next_free_label` is 128, since every reserved label is below 128, and that of `base_advance` is 255, as
-- the labels there are below 255.
--
-- Not modelled: the earlier versions in old-code that are not named above, the timers and the output,
-- the memory allocation (a block that is allocated has the size the code asks for), the times in the structs, which no function of base.c reads, and the
-- programs around the core: reading of streams, the start of threads, and MPI itself. The loops of
-- the distributed program have no bound but the messages; the loop that picks the next process
-- (`pick_dest`, in both programs) has the fuel 2, since two processes in a row are not both process 0.
pub mod Prelude
pub mod Double
pub mod Data
pub mod Nearest
pub mod KMeans
pub mod Clustering
pub mod Sleep
pub mod Identify
pub mod Label
pub mod Novelty
pub mod Unknowns
pub mod Growth
pub mod Training
pub mod Online
pub mod Kyoto
pub mod Circular
pub mod Mpi
pub mod Statistics
pub mod Env
pub mod Lines
pub mod Slots
pub mod Baseline
pub mod Samples
