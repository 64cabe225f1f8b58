-- ===== src/Lib.antt =====
-- Minirel, a small relational storage engine in C: three layers over the Unix file system. The BF
-- layer keeps pages of files in a pool of 40 page frames, the PF layer gives files of pages, and the
-- HF and AM layers (heap files of records, B+-tree indexes) stand on PF. A client of BF asks for a page
-- by the PF file descriptor and the page number, works on the page while it is pinned, and unpins it.
-- The pool writes pages back when it needs their frames and when their file is closed.
--
-- Which file models what:
--   Prelude      numbers, Boolean tests, lists, C's `int`, and the results of C steps with their faults
--   Memory       the links of heap cells: BFpage (bf/bf_page.h) and BFhash_entry (bf/hash_table.h). Its
--                children say which lists the links make (Chain), and how unlinking a cell, pushing one
--                and moving one between two lists change them (Unlink, TwoLists)
--   Unix         the operating system, and reads and writes of pages (bf/bf.c, bf/lru.c, pf/pf.c)
--   Unix.Files   the calls on whole files that pf/pf.c makes: stat, open, close, fstat, unlink
--   Bf           the codes of h/bf.h, the records, and the state: free_list_head, lru_head, hash_table
--   Bf.FreeList  bf/free_list.c: FL_Init is fl_init, and so on for FL_Clean, FL_Pop and FL_Push
--   Bf.Hash      bf/hash_table.c: HT_Init, HT_Clean, HT_Index, HT_Find, HT_Add, HT_Remove, with their
--                loops. Bf.Hash.Table has the invariant, Keys and Erase the entries as lists of keys, and
--                the other children stand by operation
--   Bf.Lru       bf/lru.c: LRU_Push, LRU_Remove, LRU_ClearLast and its loops
--   Bf.Api       bf/bf.c: BF_Init, BF_GetBuf, BF_AllocBuf, BF_UnpinBuf, BF_TouchBuf and BF_FlushBuf.
--                Bf.Api.View has the invariant of the pool and what a state stands for, a list of frames
--                in order of use and a list of free frames; Bf.Api.Spec has what each operation promises
--                on that view
--   Bf.Tests     concrete pools
--   Pf           pf/pf.c: the file table, PF_Init, PF_CreateFile, PF_DestroyFile and PF_OpenFile
--   Pf.Header    the page count of a file, PFhdr_str, as bytes
--   Pf.Pages     pf/pf.c: PF_CloseFile, PF_AllocPage, PF_GetNextPage, PF_GetFirstPage, PF_GetThisPage,
--                PF_DirtyPage and PF_UnpinPage. Pf.State has the invariant, the other children the
--                theorems about each operation
--   Pf.Tests     concrete states
--   Hf           hf/hf.c: the codes of h/hf.h, the tables of files and of scans, HF_Init. A page of records
--                is bytes: a bit map of `int`s, and an array of pointers of 8 bytes to C strings in memory
--                that `malloc` gave (Hf.Bytes; its child Read says which record a place has,
--                and Slots what placing one changes)
--   Hf.Files     HF_CreateFile, HF_DestroyFile, HF_OpenFile and HF_CloseFile, with their header page
--   Hf.Records   HF_InsertRec, HF_DeleteRec, HF_GetThisRec and HF_ValidRecId. The proofs stand in State,
--                Unpinning, Resident (pages that stand in the pool), Reading, Writing (deletion), Inserting
--                and RoundTrip; Pins has the fetching and unpinning of pages at known addresses
--   Hf.Cursor    HF_GetFirstRec and HF_GetNextRec
--   Hf.Scans     HF_OpenFileScan, HF_GetRecordValue, HF_FindNextRec and HF_CloseFileScan; Find says
--                how ints compare, and Match which record is found
--   Hf.Tests     a concrete file of records
--   Am           am/utils.c: max_node_count, is_operation_true, and the search within a node,
--                find_ptr_index_internal and find_ptr_index_leaf, on the bytes of a node
--   Am.Child     the search in an internal node with integer keys; Am.Capacity the size of a node
--   Am.Nodes     the nodes of am/data_structures.h as bytes of their pages
--   Am.Tree      am/utils.c: initialize_root_node and find_leaf; Rounds, Arrivals and Descent follow a walk
--                from the root to a leaf along one of the ways of Ways
--   Am.Leaves    am/utils.c: update_scan_entry_key_index, with the entry of the scan and the file of the index
--   Am.Names     of am/utils.c: sizeof_filename_with_index and set_filename_with_index, for index numbers
--                that are not negative
--
-- How the C code is read. A pointer is a number, 0 the null pointer. The heap is a function from
-- addresses to fields with a set of allocated addresses; an access through the null pointer or
-- through an address that is not allocated is a fault, and so are an index out of bounds, an `int`
-- that overflows in HT_Index or in the offset of a page, which is so from page 524287 on, and a seek
-- before the start of a file. A well-formed pool has only pages whose offsets are an `int`. `malloc`
-- gives the next address and does not fail. `count` is a 16-bit pattern that wraps around. A global
-- variable that a function changes is a part of the state that it takes and returns. A system call
-- may fail at any moment: the record of the operating system has a function that says which calls
-- fail. A file is a sequence of whole pages; a read past its end brings nothing, and the program
-- goes on with the bytes that were in the buffer. `errno` is followed as far as the program reads
-- it: whether it is EEXIST. `open` gives descriptors that were never in use. The copies of a file
-- name that PF_OpenFile and HF_OpenFile make, and that of a scan's value, are taken to have room for
-- their ends. A function of HF that ends without `return` gives no value. A caller's buffer for a
-- record is its bytes, and a copy that does not fit is a fault. HF compares values as floats; a
-- float is kept as a number with the same order, or as NaN, and an `int` is rounded to 24 bits
-- first.
--
-- A node of an index holds the address of its own pairs, which the code sets before it reads them;
-- where pages are in memory is a parameter, the pairs are the bytes after that address, and
-- PF_GetThisPage and the other functions that fail leave the pointer that they were to set.
--
-- Fuel. find_leaf has as much fuel as it is given, and the levels of the tree are enough. The loops
-- over a hash chain have as many rounds as addresses were given out, and no chain has so many cells.
-- The loops over the LRU list have 41 rounds, and the list has at most 40 pages. The theorems that
-- name the result of a run hold with this fuel, so they show that the loops end.
--
-- What is not modelled: BF_ShowBuf and HF_PrintError, which print; the `dirty` field of BFreq, which
-- BF never reads; of the AM layer, the index files, scans, insertion and deletion (am/am.c), and
-- find_parent and the splitting of nodes (am/utils.c); the test drivers; and failures of `malloc`. A
-- float key is compared by the bits of its IEEE 754 form, and a node's sizes are those of a machine
-- with pointers of 8 bytes.
pub mod Prelude
pub mod Memory
pub mod Unix
pub mod Bf
pub mod Pf
pub mod Hf
pub mod Am
